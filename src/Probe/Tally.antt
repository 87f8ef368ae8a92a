-- ===== src/Probe/Tally.antt =====
-- probe.go: how the counts grow.
use schroedinger_sync.Base.{
  ℕ, zero, suc, ◌+◌, ◌*◌, ◌≤◌, ◌≡◌, refl, arith, Bool, true, false, Option, none, some, List, [],
  ◌∷◌, if◌then◌else◌, ltb, length, is_empty, Bytes,
}
use schroedinger_sync.Base.Map.{Map, lookup, insert}
use schroedinger_sync.Result.{Result, ok, err}
use schroedinger_sync.Fetch.{Session, sleep, get_with_retry, page_limit, page_path}
use schroedinger_sync.Probe.{
  Tagged, tagged_page, Counts, increment, count_page, counted_page, tally_pages, or_zero, no_counts,
}

-- The sum of the counts of a map.
abbrev pub sum : Map ℕ → ℕ
sum [] = 0
sum ((k, n) ∷ m) = n + sum m

sum-insert : (k : Bytes) (m : Map ℕ) → sum (insert k (or_zero (lookup k m) + 1) m) ≡ sum m + 1
unfolding insert lookup
sum-insert k [] = refl
sum-insert k ((j, n) ∷ m) = ground (arith, sum-insert k m)

-- Every conversation counts once under its model and once under its platform.
abbrev pub IsBalanced : Counts → Type 0
IsBalanced t = (sum t.models ≡ t.total) × (sum t.platforms ≡ t.total) × (t.with_project ≤ t.total)

count_page-sums :
    (page : List Tagged) (t : Counts)
    → (sum (count_page page t).models ≡ sum t.models + length page)
      × (sum (count_page page t).platforms ≡ sum t.platforms + length page)
      × ((count_page page t).with_project ≤ t.with_project + length page)
unfolding count_page increment
count_page-sums [] t = (omega arith, omega arith, omega arith)
count_page-sums (c ∷ cs) t =
    let (models, platforms, projects) = count_page-sums cs (record t {
      models = increment c.model t.models;
      platforms = increment c.platform t.platforms;
      with_project = if is_empty c.project_uuid then t.with_project else t.with_project + 1;
    }) in
    (
      omega (arith, models, sum-insert c.model t.models),
      omega (arith, platforms, sum-insert c.platform t.platforms),
      ground (arith, projects),
    )

counted_page-IsBalanced :
    (page : List Tagged) (t : Counts) → IsBalanced t → IsBalanced (counted_page page t)
unfolding counted_page
counted_page-IsBalanced page t (m, p, w) =
    let (models, platforms, projects) = count_page-sums page t in
    (omega arith, omega arith, omega arith)

module _ {N : Type 0} where
  -- A count that has ended, and adds up.
  abbrev IsCounted : Option (Counts × Session N) → Type 0
  IsCounted o = (u : Counts) × (τ : Session N) × (o ≡ some (u, τ)) × IsBalanced u

module _ {N : Type 0} (get : Bytes → N → Result Bytes × N) (org : Bytes) (last : ℕ) where
  -- The page behind `last` full ones is not full, whenever it is asked for.
  abbrev pub IsLast : Type 0
  IsLast =
      (σ : Session N) (body : Bytes) (page : List Tagged)
      → (get_with_retry get (page_path org (last * page_limit)) 6 σ).0 ≡ ok body
      → tagged_page body ≡ some page
      → ltb (length page) page_limit ≡ true

  module _ (short : IsLast) where
    -- One page, and what comes behind a full one.
    tally_pages-step :
        (left offset : ℕ) (t : Counts) (σ : Session N)
        → IsBalanced t
        → ((page : List Tagged) (body : Bytes)
            → (get_with_retry get (page_path org offset) 6 σ).0 ≡ ok body
            → tagged_page body ≡ some page
            → ltb (length page) page_limit ≡ false
            → (τ : Session N)
            → IsCounted (tally_pages get left org (offset + page_limit) (counted_page page t) τ))
        → IsCounted (tally_pages get (suc left) org offset t σ)
    unfolding tally_pages
    tally_pages-step left offset t σ h more =
        answered (get_with_retry get (page_path org offset) 6 σ).0 refl
      where
        τ : Session N
        τ = (get_with_retry get (page_path org offset) 6 σ).1

        sized :
            (short : Bool) (page : List Tagged) (o : Option (Counts × Session N))
            → (short ≡ false → IsCounted o)
            → IsCounted (if short then some (counted_page page t, τ) else o)
        sized true page o f = (counted_page page t, τ, refl, counted_page-IsBalanced page t h)
        sized false page o f = f refl

        parsed :
            (body : Bytes) (page : Option (List Tagged))
            → (get_with_retry get (page_path org offset) 6 σ).0 ≡ ok body
            → tagged_page body ≡ page
            → IsCounted (elim page [
              | none ↦ some (t, τ)
              | some page ↦
                  if ltb (length page) page_limit
                  then some (counted_page page t, τ)
                  else tally_pages get left org
                      (offset + page_limit)
                      (counted_page page t)
                      (sleep 600 τ)
            ])
        parsed body none a e = (t, τ, refl, h)
        parsed body (some page) a e =
            sized (ltb (length page) page_limit) page _
              (λ full. more page body a e full (sleep 600 τ))

        answered :
            (r : Result Bytes)
            → (get_with_retry get (page_path org offset) 6 σ).0 ≡ r
            → IsCounted (elim r [
              | err e ↦ some (record t { fault = some (offset, e) }, τ)
              | ok body ↦ elim (tagged_page body) [
                | none ↦ some (t, τ)
                | some page ↦
                    if ltb (length page) page_limit
                    then some (counted_page page t, τ)
                    else tally_pages get left org
                        (offset + page_limit)
                        (counted_page page t)
                        (sleep 600 τ)
              ]
            ])
        answered (err e) a = (record t { fault = some (offset, e) }, τ, refl, h)
        answered (ok body) a = parsed body (tagged_page body) a refl

    tally_pages-from :
        (left k : ℕ) (t : Counts) (σ : Session N)
        → k + left ≡ last
        → IsBalanced t
        → (u : Counts) × (τ : Session N) × (tally_pages get (suc left) org (k * page_limit) t σ
            ≡ some (u, τ))
          × IsBalanced u
    tally_pages-from zero k t σ at h =
        let here : k ≡ last = omega arith in
        tally_pages-step zero (k * page_limit) t σ h (λ page body a e full τ.
          let short_page : ltb (length page) page_limit ≡ true =
            short σ body page (rw here at a) e in
          absurd (cc (short_page, full)))
    tally_pages-from (suc left) k t σ at h =
        let next : k * page_limit + page_limit ≡ suc k * page_limit = omega arith in
        tally_pages-step (suc left) (k * page_limit) t σ h (λ page body a e full τ. rw next (
          tally_pages-from left (suc k) (counted_page page t) τ (omega arith)
            (counted_page-IsBalanced page t h)))

    -- Against a server whose pages end somewhere, the count ends as soon, and it adds up: by model and
    -- by platform it gives the total, and no more conversations stand in projects.
    pub tally_pages-IsBalanced :
        (σ : Session N)
        → (u : Counts) × (τ : Session N) × (tally_pages get (suc last) org 0 no_counts σ
            ≡ some (u, τ))
          × IsBalanced u
    tally_pages-IsBalanced σ =
        tally_pages-from last 0 no_counts σ (omega arith) (refl, refl, omega arith)
