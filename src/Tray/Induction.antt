-- ===== src/Tray/Induction.antt =====
-- Induction on what the two goroutines can reach.
use schroedinger_sync.Base.{◌≡◌, refl, Bool, true, Bool-cases, inl, inr}
use schroedinger_sync.Tray.{
  Pump, idle, notice_lock, quit_lock, System, Action, work, click_sync, click_status, click_quit,
  pump_on, worker_step, pump_step, act_on, click, exited, step, initial, Reach, start, later,
}

module _ {ℓ} (Inv : System → Type ℓ) where
  -- What a click may start, if the pump is idle.
  abbrev pub Clicked : System → Type ℓ
  Clicked s =
      Inv (record s { sync_now = true })
      × Inv (record s { pump = notice_lock })
      × Inv (record s { shutting_down = true; pump = quit_lock })

  click-keeps :
      (p : Pump) (clicked s : System) → (p ≡ idle → Inv clicked) → Inv s → Inv (click p clicked s)
  unfolding click
  click-keeps idle clicked s f h = f refl
  click-keeps p clicked s f h = h

  module _ (worker_keeps : (c : Bool) (s : System) → Inv s → Inv (worker_step s.worker c s))
      (pump_keeps : (s : System) → Inv s → Inv (pump_step s.pump s))
      (click_keeps : (s : System) → s.pump ≡ idle → Inv s → Clicked s) where
    act_on-keeps : (a : Action) (s : System) → Inv s → Inv (act_on a s)
    unfolding act_on
    act_on-keeps (work c) s h = worker_keeps c s h
    act_on-keeps click_sync s h = click-keeps s.pump _ s (λ e. (click_keeps s e h).0) h
    act_on-keeps click_status s h = click-keeps s.pump _ s (λ e. (click_keeps s e h).1) h
    act_on-keeps click_quit s h = click-keeps s.pump _ s (λ e. (click_keeps s e h).2) h
    act_on-keeps pump_on s h = pump_keeps s h

    step-keeps : (a : Action) (s : System) → Inv s → Inv (step a s)
    unfolding step
    step-keeps a s h = elim (Bool-cases (exited s.pump)) [
      | inl out ↦ rw out h
      | inr on ↦ rw on (act_on-keeps a s h)
    ]

    -- What holds at the start and is kept by the moves of both goroutines holds wherever they get.
    pub Reach-induction : Inv initial → {s : System} → Reach s → Inv s
    Reach-induction base start = base
    Reach-induction base (later {s} r a) = step-keeps a s (Reach-induction base r)
