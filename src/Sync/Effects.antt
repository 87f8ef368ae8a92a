-- ===== src/Sync/Effects.antt =====
-- daemon.go: what a pass of `syncConversations` reaches, whatever the server and the disk answer.
use schroedinger_sync.Base.{
  ℕ, ◌≡◌, refl, ◌∙◌, ap, inl, inr, arith, Bool, true, false, not, Option, none, some, List, [], ◌∷◌,
  all, is_empty, Bytes, ◌=?◌, Bool-cases,
}
use schroedinger_sync.Result.{Error, Result, ok, err}
use schroedinger_sync.Api.{ConvSummary}
use schroedinger_sync.Names.{conv_filename}
use schroedinger_sync.Markdown.{conv_to_markdown}
use schroedinger_sync.Disk.{Disk}
use schroedinger_sync.Disk.Atomic.{at}
use schroedinger_sync.Integrity.{write_markdown}
use schroedinger_sync.Integrity.Laws.{IsExport, write_markdown-others}
use schroedinger_sync.Daemon.Decisions.{ConvActionKind, action_fetch, action_skip, action_seed}
use schroedinger_sync.Sync.{
  Sync, entry, remember, failed, decide, Step, next, abort, written, fetched, fetch_one, act,
  sync_one, sync_conversations,
}
use schroedinger_sync.Sync.Loop.{after, count_progress-others}

-- No listed conversation is exported under the name.
abbrev pub spared : Bytes → List ConvSummary → Bool
spared k cs = all (λ c. not (conv_filename c =? k)) cs

module _ {N : Type 0} (get : Bytes → N → Result Bytes × N) (hash_content : Bytes → Bytes)
    (org : Bytes) (delay : ℕ) where
  module _ (k : Bytes) (c : ConvSummary) where
    written-keeps_file :
        (md : Bytes) (y : Sync N)
        → IsExport k
        → (conv_filename c =? k) ≡ false
        → at k
            (written get hash_content org delay c
              (write_markdown hash_content (conv_filename c) md y.disk)
              y).disk
          ≡ at k y.disk
    written-keeps_file md y export other =
        from_write (write_markdown hash_content (conv_filename c) md y.disk)
          (write_markdown-others hash_content (conv_filename c) md y.disk k export other)
      where
        from_write :
            (w : Option Bool × Disk)
            → at k w.1 ≡ at k y.disk
            → at k (written get hash_content org delay c w y).disk ≡ at k y.disk
        from_write (none, d) h = unfold written failed in h
        from_write (some m, d) h =
            unfold written remember in
            ap (at k) (count_progress-others c (entry c y) (record y { disk = d })).1 ∙ h

    fetched-keeps_file :
        (r : Result Bytes) (y : Sync N)
        → IsExport k
        → (conv_filename c =? k) ≡ false
        → at k (after (fetched get hash_content org delay c r y)).disk ≡ at k y.disk
    unfolding fetched failed
    fetched-keeps_file (err e) y export other = ground arith
    fetched-keeps_file (ok body) y export other =
        elim (Bool-cases (is_empty (conv_to_markdown body))) [
          | inl h ↦ rw h refl
          | inr h ↦ rw h (written-keeps_file (conv_to_markdown body) y export other)
        ]

    act-keeps_file :
        (a : ConvActionKind) (y : Sync N)
        → IsExport k
        → (conv_filename c =? k) ≡ false
        → at k (after (act get hash_content org delay a c y)).disk ≡ at k y.disk
    unfolding act fetch_one remember
    act-keeps_file action_skip y export other = refl
    act-keeps_file action_seed y export other = refl
    act-keeps_file action_fetch y export other = fetched-keeps_file _ _ export other

  -- A pass writes only the files of the conversations in its list and the manifest's own: every
  -- other file is as it was, whatever the server and the disk answer, also where a deadline breaks
  -- the pass off.
  pub sync_conversations-keeps_file :
      (k : Bytes)
      → IsExport k
      → (cs : List ConvSummary) (y : Sync N) → spared k cs ≡ true
      → at k (sync_conversations get hash_content org delay cs y).1.disk ≡ at k y.disk
  unfolding sync_conversations sync_one
  sync_conversations-keeps_file k export [] y h = refl
  sync_conversations-keeps_file k export (c ∷ cs) y h =
      from_step (λ z. sync_conversations-keeps_file k export cs z (ground arith))
        (act get hash_content org delay (decide c y) c y)
        (act-keeps_file k c (decide c y) y export (ground arith))
    where
      from_step :
          ((z : Sync N)
            → at k (sync_conversations get hash_content org delay cs z).1.disk ≡ at k z.disk)
          → (s : Step N) → at k (after s).disk ≡ at k y.disk
          → at k
              (elim s as (λ _. Option Error × Sync N) [
                | next z ↦ sync_conversations get hash_content org delay cs z
                | abort e z ↦ (some e, z)
              ]).1.disk
            ≡ at k y.disk
      from_step later (next z) same = later z ∙ same
      from_step later (abort e z) same = same
