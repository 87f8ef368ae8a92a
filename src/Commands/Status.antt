-- ===== src/Commands/Status.antt =====
-- What the exit status of the one-shot harvest says.
use mathlib.Core.Path.{subst}
use schroedinger_sync.Base.{
  ℕ, ◌+◌, ◌≡◌, ◌∙◌, ap, refl, zero, suc, arith, Bool, true, false, ◌||◌, Option, none, some, List,
  if◌then◌else◌, ltb, lt→ltb, length, Bytes, ascii, Bool-cases, inl, inr,
}
use schroedinger_sync.Result.{Error, is_desktop_not_found, Result, ok, err}
use schroedinger_sync.Api.{ConvSummary}
use schroedinger_sync.Fetch.{Session, resolve_org, list_all_conversations}
use schroedinger_sync.Fetch.Whole.{flat, ArePages, list_all_conversations-ArePages}
use schroedinger_sync.Disk.{Disk, mkdir_all}
use schroedinger_sync.Harvest.{Harvest, harvest_all}
use schroedinger_sync.Harvest.Accounting.{harvest_all-counted}
use schroedinger_sync.Surfaces.{harvest_projects, harvest_memory}
use schroedinger_sync.Process.{
  Process, Ending, returns, exits, fatal, exit_on_session_failure, open_claude_session, teardown,
}
use schroedinger_sync.Process.Endings.{status}
use schroedinger_sync.Commands.{
  with_org, harvest_reported, listed_harvest, harvest_with, cdp_harvest, fresh_harvest,
}

module _ {N : Type 0} where
  -- What a command that comes back to `main` has done.
  abbrev Succeeds : Type 0 → Ending N → Type 0
  Succeeds T (returns q) = T
  Succeeds T (exits q) = Unit

  Succeeds-map : {S T : Type 0} → (S → T) → (x : Ending N) → Succeeds S x → Succeeds T x
  Succeeds-map f (returns q) s = f s
  Succeeds-map f (exits q) s = tt

  abbrev Succeeded : Type 0 → Option (Ending N) → Type 0
  Succeeded T none = Unit
  Succeeded T (some x) = Succeeds T x

  Succeeded-map : {S T : Type 0} → (S → T) → (x : Option (Ending N)) → Succeeded S x → Succeeded T x
  Succeeded-map f none s = tt
  Succeeded-map f (some x) s = Succeeds-map f x s

  Succeeds_zero : {T : Type 0} → (x : Ending N) → status x ≡ 0 → Succeeds T x → T
  Succeeds_zero (returns q) h t = t
  Succeeds_zero (exits q) h t = absurd (cc h)

module _ {N : Type 0} (get : Bytes → N → Result Bytes × N) (hash_content : Bytes → Bytes) where
  -- Nothing failed behind the loop over the conversations `all`.
  abbrev pub IsClean : Bytes → Bytes → List ConvSummary → Bool × Harvest N → Type 0
  IsClean org now all (finished, y) =
      let s = harvest_projects get hash_content org y.session y.disk in
      (finished ≡ true)
      × (y.err_n ≡ 0)
      × (y.new_n + y.skip_n ≡ length all)
      × (s.err_n ≡ 0)
      × ((b : Bool) × ((harvest_memory get hash_content org now s.session s.disk).0 ≡ ok b))

  -- The listing `r` was harvested whole.
  abbrev pub IsListed : Bytes → Bytes → Session N → Disk → Result (List ConvSummary) → Type 0
  IsListed org now σ d r =
      (all : List ConvSummary) × (r ≡ ok all)
      × IsClean org now all (harvest_all get hash_content org all (fresh_harvest σ (mkdir_all d).1))

  -- The server listed `all` page by page in the session `τ`, no page left out, and they were harvested.
  abbrev pub IsServed : ℕ → Bytes → Bytes → Session N → Disk → Type 0
  IsServed fuel now org τ d =
      (all : List ConvSummary) × (pages : List (List ConvSummary)) × (all ≡ flat pages)
      × ArePages get org 0 τ pages
      × ((σ : Session N) × (list_all_conversations get fuel org τ ≡ some (ok all, σ))
          × IsClean org now all
              (harvest_all get hash_content org all (fresh_harvest σ (mkdir_all d).1)))

  served :
      (fuel : ℕ) (now org : Bytes) (τ σ : Session N) (d : Disk) (r : Result (List ConvSummary))
      → list_all_conversations get fuel org τ ≡ some (r, σ)
      → IsListed org now σ d r
      → IsServed fuel now org τ d
  served fuel now org τ σ d r e (all, same, clean) =
      let listed : list_all_conversations get fuel org τ ≡ some (ok all, σ) =
        e ∙ ap (λ q. some (q, σ)) same in
      let (pages, whole, answered) = list_all_conversations-ArePages get org fuel τ σ all listed in
      (all, pages, whole, answered, (σ, listed, clean))

  -- Everything that the server listed behind `p` was harvested.
  abbrev pub IsWhole : ℕ → Bytes → Process N → Type 0
  IsWhole fuel now p =
      (org : Bytes) × ((resolve_org get p.session).0 ≡ ok org)
      × IsServed fuel now org (resolve_org get p.session).1 p.disk

  harvest_reported-IsClean :
      (close : N → N) (org now : Bytes) (all : List ConvSummary) (r : Bool × Harvest N)
      (p : Process N)
      → (r.0 ≡ true → r.1.new_n + r.1.skip_n + r.1.err_n ≡ length all)
      → Succeeds (IsClean org now all r) (harvest_reported get close hash_content org now r p)
  unfolding harvest_reported fatal
  harvest_reported-IsClean close org now all (false, y) p count = tt
  harvest_reported-IsClean close org now all (true, y) p count = judged y.err_n _ _ _ _ (count refl)
    where
      judged :
          (a b : ℕ) (m : Result Bool) (n : ℕ) (q : Process N)
          → n + a ≡ length all
          → Succeeds
              ((true ≡ true) × (a ≡ 0) × (n ≡ length all) × (b ≡ 0) × ((w : Bool) × (m ≡ ok w)))
              (if ltb 0 a || (ltb 0 b || elim m [ err _ ↦ true | ok _ ↦ false ])
                then fatal close (ascii "harvest completed WITH ERRORS") q
                else returns (teardown close q))
      judged zero zero (ok w) n q h = (refl, refl, omega arith, refl, (w, refl))
      judged zero zero (err e) n q h = tt
      judged zero (suc b) m n q h = rw (lt→ltb 0 (suc b) (omega arith)) tt
      judged (suc a) b m n q h = rw (lt→ltb 0 (suc a) (omega arith)) tt

  listed_harvest-IsClean :
      (close : N → N) (org now : Bytes) (r : Result (List ConvSummary)) (p : Process N)
      → Succeeds
          (IsListed org now p.session p.disk r)
          (listed_harvest get close hash_content org now r p)
  unfolding listed_harvest fatal
  listed_harvest-IsClean close org now (err e) p = tt
  listed_harvest-IsClean close org now (ok all) p =
      let start = fresh_harvest p.session (mkdir_all p.disk).1 in
      elim (Bool-cases (mkdir_all p.disk).0) [
        | inl made ↦ rw made (
            Succeeds-map {T = IsListed org now p.session p.disk (ok all)}
              (λ clean. (all, refl, clean)) _
              (harvest_reported-IsClean close org now all
                (harvest_all get hash_content org all start) _
                (λ done. omega (arith, harvest_all-counted get hash_content org all start done))))
        | inr refused ↦ rw refused tt
      ]

  harvest_with-IsWhole :
      (close : N → N) (fuel : ℕ) (now org : Bytes) (p : Process N) (τ : Session N)
      → Succeeded
          (IsServed fuel now org τ p.disk)
          (harvest_with get close hash_content fuel now org (record p { session = τ }))
  unfolding harvest_with
  harvest_with-IsWhole close fuel now org p τ = cases (list_all_conversations get fuel org τ) refl
    where
      cases :
          (o : Option (Result (List ConvSummary) × Session N))
          → list_all_conversations get fuel org τ ≡ o
          → Succeeded (IsServed fuel now org τ p.disk) (elim o [
            | none ↦ none
            | some (r, σ) ↦
                some (listed_harvest get close hash_content org now r (record p { session = σ }))
          ])
      cases none e = tt
      cases (some (r, σ)) e =
          Succeeds-map {T = IsServed fuel now org τ p.disk} (served fuel now org τ σ p.disk r e) _
            (listed_harvest-IsClean close org now r (record p { session = σ }))

module _ {N : Type 0} (get : Bytes → N → Result Bytes × N)
    (read_key : List Bytes → Result Bytes × List Bytes) (reparse_point : Bool)
    (navigate : Bytes → N → Option Error × N) (close : N → N) (hash_content : Bytes → Bytes) where
  exit_on_session_failure-Succeeds :
      (T : Type 0) (e : Error) (q : Process N) → Succeeds T (exit_on_session_failure close e q)
  unfolding exit_on_session_failure fatal
  exit_on_session_failure-Succeeds T e q = elim (Bool-cases (is_desktop_not_found e)) [
    | inl missing ↦ rw missing tt
    | inr present ↦ rw present tt
  ]

  with_org-IsWhole :
      (fuel : ℕ) (now : Bytes) (p : Process N)
      → Succeeded
          (IsWhole get hash_content fuel now
            (open_claude_session read_key reparse_point navigate close p).1)
          (with_org get read_key reparse_point navigate close
            (harvest_with get close hash_content fuel now)
            p)
  unfolding with_org exit_on_session_failure fatal
  with_org-IsWhole fuel now p =
      opened (open_claude_session read_key reparse_point navigate close p).0 _
    where
      opened :
          (failure : Option Error) (q : Process N)
          → Succeeded (IsWhole get hash_content fuel now q) (elim failure [
            | some e ↦ some (exit_on_session_failure close e q)
            | none ↦ elim (resolve_org get q.session).0 [
              | err e ↦ some (
                  fatal close
                    (ascii "FAIL @org:")
                    (record q { session = (resolve_org get q.session).1 }))
              | ok o ↦
                  harvest_with get close hash_content fuel now o
                    (record q { session = (resolve_org get q.session).1 })
            ]
          ])
      opened (some e) q = exit_on_session_failure-Succeeds _ e q
      opened none q = resolved (resolve_org get q.session).0 refl
        where
          resolved :
              (org : Result Bytes)
              → (resolve_org get q.session).0 ≡ org
              → Succeeded (IsWhole get hash_content fuel now q) (elim org [
                | err e ↦ some (
                    fatal close
                      (ascii "FAIL @org:")
                      (record q { session = (resolve_org get q.session).1 }))
                | ok o ↦
                    harvest_with get close hash_content fuel now o
                      (record q { session = (resolve_org get q.session).1 })
              ])
          resolved (err e) same = tt
          resolved (ok o) same =
              Succeeded-map {T = IsWhole get hash_content fuel now q} (λ served. (o, same, served))
                _ (harvest_with-IsWhole get hash_content close fuel now o q _)

  -- A harvest that exits with the status zero has listed the conversations by pages that were all
  -- answered and read, each of them full but the last; it has counted each conversation as exported
  -- or current, and met no error in the project documents or the memory.
  pub cdp_harvest-IsWhole :
      (fuel : ℕ) (now : Bytes) (p : Process N) (x : Ending N)
      → cdp_harvest get read_key reparse_point navigate close hash_content fuel now p ≡ some x
      → status x ≡ 0
      → IsWhole get hash_content fuel now
          (open_claude_session read_key reparse_point navigate close p).1
  unfolding cdp_harvest
  cdp_harvest-IsWhole fuel now p x e zero_status =
      Succeeds_zero x zero_status (subst (Succeeded _) e (with_org-IsWhole fuel now p))
