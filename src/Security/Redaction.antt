-- ===== src/Security/Redaction.antt =====
-- security.go: `redact` and the registered secrets.
use schroedinger_sync.Base.{
  ℕ, Bool, leb, ◌&&◌, true, false, List, [], ◌∷◌, ◌++◌, ◌≡◌, refl, arith, length, any, Bytes, ascii,
  ◌=?◌, =?_iff, ◌||◌, inl, inr, Bool-cases,
}
use schroedinger_sync.Text.Search.{contains, replace_all}
use schroedinger_sync.Text.Search.Replace.{
  Foreign, contains-replace_from, contains-replace_from_self,
}
use schroedinger_sync.Security.{register_secret, redact}

-- A secret that the placeholder cannot bring back: without square brackets, and not inside
-- `REDACTED`. A `sk-ant-…` key in the alphabet of such keys is one.
abbrev pub IsOpaque : Bytes → Type 0
IsOpaque = Foreign (ascii "REDACTED")

abbrev pub registered : List Bytes → Bytes → Bool
registered secrets s = any (λ existing. existing =? s) secrets

-- Redaction brings no opaque word forth.
pub contains-redact :
    (secrets : List Bytes) (s w : Bytes)
    → IsOpaque w
    → contains (redact secrets s) w ≡ true
    → contains s w ≡ true
unfolding redact replace_all
contains-redact [] s w o h = h
contains-redact ([] ∷ secrets) s w o h = contains-redact secrets s w o h
contains-redact ((c ∷ sec) ∷ secrets) s w o h =
    contains-replace_from (ascii "REDACTED") 0 s (c ∷ sec) w o (contains-redact secrets _ w o h)

nil-ne : (x : ℕ) (w : Bytes) → ([] =? (x ∷ w)) ≡ false
unfolding ◌=?◌
nil-ne x w = refl

redact-hides :
    (secrets : List Bytes) (s w : Bytes)
    → IsOpaque w
    → registered secrets w ≡ true
    → contains (redact secrets s) w ≡ true
    → ⊥
unfolding redact replace_all
redact-hides [] s w o r h = cc
redact-hides ([] ∷ secrets) s [] o r h = cc (o.0)
redact-hides ([] ∷ secrets) s (x ∷ w) o r h = redact-hides secrets s (x ∷ w) o (rw nil-ne at r) h
redact-hides ((c ∷ sec) ∷ secrets) s w o r h = elim (Bool-cases ((c ∷ sec) =? w)) [
  | inl here ↦
      let same = (=?_iff (c ∷ sec) w).0 here in
      let left = contains-redact secrets _ w o h in
      contains-replace_from_self (ascii "REDACTED") 0 s w o (rw same at left)
  | inr there ↦ redact-hides secrets _ w o (rw there at r) h
]

-- No registered secret stands in what `redact` returns.
pub redact-lacks :
    (secrets : List Bytes) (s w : Bytes)
    → IsOpaque w
    → registered secrets w ≡ true
    → contains (redact secrets s) w ≡ false
redact-lacks secrets s w o r = ground (arith, redact-hides secrets s w o r)

any-append : (p : Bytes → Bool) (xs ys : List Bytes) → any p (xs ++ ys) ≡ (any p xs || any p ys)
any-append p [] ys = refl
any-append p (x ∷ xs) ys = ground (arith, any-append p xs ys)

-- A value of eight bytes or more is registered once it has been handed over, and the registry
-- still holds whatever it held.
pub register_secret-registered :
    (s w : Bytes) (secrets : List Bytes)
    → registered (register_secret s secrets) w
      ≡ (registered secrets w || (leb 8 (length s) && s =? w))
unfolding register_secret
register_secret-registered s w secrets = elim (Bool-cases (s =? w)) [
  | inl same ↦ ground (arith, (=?_iff s w).0 same, any-append (λ e. e =? w) secrets (s ∷ []))
  | inr other ↦ ground (arith, any-append (λ e. e =? w) secrets (s ∷ []))
]
