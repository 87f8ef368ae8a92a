-- ===== src/Sync/Exports.antt =====
-- daemon.go: when `syncConversations` fetches, stops, and rests.
use schroedinger_sync.Base.{
  ℕ, ◌+◌, ◌≡◌, refl, sym, ◌∙◌, ap, inl, inr, arith, Bool, true, false, ◌&&◌, Option, none, some,
  List, [], ◌∷◌, all, is_empty, Bytes, Bool-cases, ◌=?◌, =?_iff, ascii,
}
use mathlib.Core.Option.{some-injective}
use schroedinger_sync.Result.{Error, is_deadline, Result, ok, err}
use schroedinger_sync.Api.{ConvSummary}
use schroedinger_sync.Names.{conv_filename}
use schroedinger_sync.Markdown.{conv_to_markdown}
use schroedinger_sync.Fetch.{fetch_conv_body}
use schroedinger_sync.Disk.{Disk}
use schroedinger_sync.Disk.Atomic.{at}
use schroedinger_sync.Names.Visible.{conv_filename-visible, conv_filename-has_prefix}
use schroedinger_sync.Integrity.{manifest_file_name, write_markdown}
use schroedinger_sync.Integrity.Laws.{IsExport, write_markdown-written}
use schroedinger_sync.Daemon.Decisions.{action_fetch, action_skip, conv_action}
use schroedinger_sync.Text.Runes.{trunc}
use schroedinger_sync.Sync.{
  Sync, entry, remember, failed, decide, Step, next, abort, written, fetched, fetch_one, act,
  sync_one, sync_conversations, file_ok, file_updated,
}
use schroedinger_sync.Sync.Loop.{after, Counted, count_progress-others, sync_one-Counted}

-- The state and the file both agree with the server about the conversation.
abbrev pub up_to_date : {N : Type 0} → Sync N → ConvSummary → Bool
up_to_date y c =
    elim (entry c y) [ none ↦ false | some known ↦ known =? c.updated_at ]
    && (file_ok (conv_filename c) y.disk
        && file_updated (conv_filename c) y.disk =? trunc c.updated_at 19)

decide-up_to_date :
    {N : Type 0} (y : Sync N) (c : ConvSummary) → up_to_date y c ≡ true → decide c y ≡ action_skip
decide-up_to_date y c h = unfold conv_action in ground arith

module _ {N : Type 0} (get : Bytes → N → Result Bytes × N) (hash_content : Bytes → Bytes)
    (org : Bytes) (delay : ℕ) where
  sync_one-up_to_date :
      (c : ConvSummary) (y : Sync N)
      → up_to_date y c ≡ true
      → sync_one get hash_content org delay c y ≡ next y
  unfolding sync_one
  sync_one-up_to_date c y h =
      ap (λ a. act get hash_content org delay a c y) (decide-up_to_date y c h) ∙ unfold act in refl

  -- A pass over conversations that are all up to date does nothing: no request, no pause, no write,
  -- no counter.
  pub sync_conversations-idle :
      (cs : List ConvSummary) (y : Sync N)
      → all (up_to_date y) cs ≡ true
      → sync_conversations get hash_content org delay cs y ≡ (none, y)
  unfolding sync_conversations
  sync_conversations-idle [] y h = refl
  sync_conversations-idle (c ∷ cs) y h =
      let first : up_to_date y c ≡ true = ground arith in
      let others : all (up_to_date y) cs ≡ true = ground arith in
      rw (sync_one-up_to_date c y first, sync_conversations) (sync_conversations-idle cs y others)

  -- Only a deadline breaks a pass off.
  pub sync_conversations-broken_off :
      (cs : List ConvSummary) (y : Sync N) (e : Error)
      → (sync_conversations get hash_content org delay cs y).0 ≡ some e
      → is_deadline e ≡ true
  unfolding sync_conversations
  sync_conversations-broken_off [] y e h = cc
  sync_conversations-broken_off (c ∷ cs) y e h =
      from_step (λ z. sync_conversations-broken_off cs z e)
        (sync_one get hash_content org delay c y) (sync_one-Counted get hash_content org delay c y)
        h
    where
      from_step :
          ((z : Sync N)
            → (sync_conversations get hash_content org delay cs z).0 ≡ some e
            → is_deadline e ≡ true)
          → (s : Step N) → Counted c y s
          → (elim s as (λ _. Option Error × Sync N) [
            | next z ↦ sync_conversations get hash_content org delay cs z
            | abort e z ↦ (some e, z)
          ]).0
            ≡ some e
          → is_deadline e ≡ true
      from_step later (next z) _ g = later z g
      from_step later (abort e' z) (broken, _, _) g =
          ap is_deadline (sym (some-injective e' e g)) ∙ broken

  written-exported :
      (c : ConvSummary) (md : Bytes) (w : Option Bool × Disk) (y : Sync N)
      → ((m : Bool) → w.0 ≡ some m → at (conv_filename c) w.1 ≡ some md)
      → (written get hash_content org delay c w y).err_n ≡ y.err_n
      → at (conv_filename c) (written get hash_content org delay c w y).disk ≡ some md
  unfolding written failed remember
  written-exported c md (none, d) y done calm = absurd (omega arith)
  written-exported c md (some m, d) y done calm =
      ap (at (conv_filename c)) (count_progress-others c (entry c y) (record y { disk = d })).1
      ∙ done m refl

  fetched-exported :
      (c : ConvSummary) (r : Result Bytes) (y z : Sync N)
      → IsExport (conv_filename c)
      → fetched get hash_content org delay c r y ≡ next z
      → z.err_n ≡ y.err_n
      → (body : Bytes) × (r ≡ ok body)
        × (is_empty (conv_to_markdown body) ≡ false)
        × (at (conv_filename c) z.disk ≡ some (conv_to_markdown body))
  unfolding fetched failed
  fetched-exported c (err e) y z export h calm = absurd (elim (Bool-cases (is_deadline e)) [
    | inl yes' ↦ let broken : abort e y ≡ next z = rw (yes', fetched) at h in cc
    | inr no' ↦
        let on : next (failed y) ≡ next z = rw (no', fetched) at h in
        let errors : y.err_n + 1 ≡ z.err_n = ap (λ s. (after s).err_n) on in omega arith
  ])
  fetched-exported c (ok body) y z export h calm =
      let md = conv_to_markdown body in
      let w = write_markdown hash_content (conv_filename c) md y.disk in
      elim (Bool-cases (is_empty md)) [
        | inl empty ↦
            let on : next (failed y) ≡ next z = rw (empty, fetched) at h in
            let errors : y.err_n + 1 ≡ z.err_n = ap (λ s. (after s).err_n) on in
            absurd (omega arith)
        | inr full ↦
            let e : next (written get hash_content org delay c w y) ≡ next z =
              rw (full, fetched) at h in
            (
              body,
              refl,
              full,
              ap (λ s. at (conv_filename c) (after s).disk) (sym e)
                  ∙ written-exported c md w y
                      (write_markdown-written hash_content (conv_filename c) md y.disk export)
                      (ap (λ s. (after s).err_n) e ∙ calm),
            )
      ]

pub conv_filename-IsExport : (c : ConvSummary) → IsExport (conv_filename c)
conv_filename-IsExport c = (
  conv_filename-has_prefix c (ascii "content-hashes-"),
  ground (
    arith,
    =?_iff manifest_file_name (conv_filename c),
    =?_iff (conv_filename c) manifest_file_name,
    conv_filename-visible c (ascii "content-hashes.json"),
  ),
)

module _ {N : Type 0} (get : Bytes → N → Result Bytes × N) (hash_content : Bytes → Bytes)
    (org : Bytes) (delay : ℕ) where
  -- If the work on a conversation that is to be fetched counts no error, the body came from the
  -- server, was a conversation, and its markdown is now the whole content of the conversation's file.
  pub sync_one-exported :
      (c : ConvSummary) (y z : Sync N)
      → decide c y ≡ action_fetch
      → sync_one get hash_content org delay c y ≡ next z
      → z.err_n ≡ y.err_n
      → (body : Bytes) × ((fetch_conv_body get org c.uuid y.session).0 ≡ ok body)
        × (is_empty (conv_to_markdown body) ≡ false)
        × (at (conv_filename c) z.disk ≡ some (conv_to_markdown body))
  unfolding sync_one act fetch_one
  sync_one-exported c y z h e calm =
      fetched-exported get hash_content org delay c (fetch_conv_body get org c.uuid y.session).0
        (record y { session = (fetch_conv_body get org c.uuid y.session).1 }) z
        (conv_filename-IsExport c) (ap (λ a. act get hash_content org delay a c y) (sym h) ∙ e) calm
