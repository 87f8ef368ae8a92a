-- ===== src/Json/Written/Objects.antt =====
-- Objects whose keys are in ASCII and whose values are read back.
use mathlib.Core.List.{append_assoc}
use schroedinger_sync.Base.{
  ℕ, zero, suc, ◌+◌, ◌-◌, ◌≤◌, ◌≡◌, refl, ◌∙◌, ap, arith, Bool, true, ◌||◌, some, List, [], ◌∷◌,
  ◌++◌, ◌==◌, all, length, take, length-append, Bytes, ascii,
}
use schroedinger_sync.Text.Runes.Bounds.{is_ascii}
use schroedinger_sync.Json.{Value, text, Members, end, member}
use schroedinger_sync.Json.Read.{
  ◌>>=◌, is_json_space, skip_spaces, span, expect, starts, read_text, read_scalar, read_value,
  read_members,
}
use schroedinger_sync.Json.Written.Strings.{body_of, read_string-body_of}

-- What follows a value of an object: the comma, or the line end before the closing brace.
abbrev pub is_end : ℕ → Bool
is_end c = c == b',' || c == b'\n'

-- A text that is read as a value wherever it stands inside an object, by fuel for its length.
abbrev pub IsWritten : Bytes → Value → Type 0
IsWritten t v =
    ((u : Bytes) → skip_spaces (t ++ u) ≡ t ++ u)
    × ((f c : ℕ) (rest : Bytes)
        → is_end c ≡ true
        → length t ≤ f
        → read_value f (t ++ c ∷ rest) ≡ some (v, c ∷ rest))

-- The text of a literal.
abbrev pub literal_of : Bytes → Bytes
literal_of s = b'"' ∷ (body_of s ++ ascii "\"")

read_value-literal_of :
    (s : Bytes) (f c : ℕ) (rest : Bytes)
    → all is_ascii s ≡ true
    → length (literal_of s) ≤ f
    → read_value f (literal_of s ++ c ∷ rest) ≡ some (text s, c ∷ rest)
unfolding read_value read_scalar read_text
read_value-literal_of s zero c rest h l = absurd (omega arith)
read_value-literal_of s (suc f) c rest h l =
    rw append_assoc
      (ap (λ r. r >>= (λ (t, rest). some (text t, rest))) (read_string-body_of s (c ∷ rest) h))

pub literal_of-IsWritten : (s : Bytes) → all is_ascii s ≡ true → IsWritten (literal_of s) (text s)
unfolding skip_spaces
literal_of-IsWritten s h = (λ u. refl, λ f c rest e l. read_value-literal_of s f c rest h l)

take-length : (xs ys : Bytes) → take (length xs) (xs ++ ys) ≡ xs
take-length [] ys = refl
take-length (x ∷ xs) ys = ap (◌∷◌ x) (take-length xs ys)

span-append : (xs ys : Bytes) → span (xs ++ ys) ys ≡ xs
unfolding span
span-append xs ys =
    let e : length (xs ++ ys) - length ys ≡ length xs = omega (arith, length-append xs ys) in
    rw e (take-length xs ys)

-- A member from the quote of its key.
abbrev pub member_text : Bytes → Bytes → Bytes → Bytes
member_text k t rest = b'"' ∷ (body_of k ++ b'"' ∷ b':' ∷ b' ' ∷ (t ++ rest))

read_members-more :
    (k t : Bytes) (v : Value) (f : ℕ) (after : Bytes)
    → all is_ascii k ≡ true
    → IsWritten t v
    → length t ≤ f
    → read_members (suc f) (member_text k t (b',' ∷ after))
      ≡ (read_members f (skip_spaces after) >>= (λ (ms, r). some (member k t v ms, r)))
unfolding read_members expect starts skip_spaces
read_members-more k t v f after h (starts_here, reads) l =
    rw
      (
        read_string-body_of k (b':' ∷ b' ' ∷ (t ++ b',' ∷ after)) h,
        starts_here (b',' ∷ after),
        reads f b',' after refl l,
        span-append t (b',' ∷ after),
      )
      refl

read_members-last :
    (k t : Bytes) (v : Value) (f : ℕ) (after tail : Bytes)
    → all is_ascii k ≡ true
    → IsWritten t v
    → length t ≤ f
    → skip_spaces after ≡ b'}' ∷ tail
    → read_members (suc f) (member_text k t (b'\n' ∷ after)) ≡ some (member k t v end, tail)
unfolding read_members expect starts skip_spaces
read_members-last k t v f after tail h (starts_here, reads) l close =
    rw
      (
        read_string-body_of k (b':' ∷ b' ' ∷ (t ++ b'\n' ∷ after)) h,
        starts_here (b'\n' ∷ after),
        reads f b'\n' after refl l,
        span-append t (b'\n' ∷ after),
      )
      (rw close refl)

-- A member that is written: its value is read back from its text.
pub record Entry : Type 0 where
  pub key : Bytes
  pub written : Bytes
  pub value : Value

abbrev pub IsEntry : Entry → Type 0
IsEntry e = (all is_ascii e.key ≡ true) × IsWritten e.written e.value

abbrev pub AreEntries : List Entry → Type 0
AreEntries [] = Unit
AreEntries (e ∷ es) = IsEntry e × AreEntries es

unfoldable pub members_of : List Entry → Members
members_of [] = end
members_of (e ∷ es) = member e.key e.written e.value (members_of es)

-- The members from the quote of the first key, to the closing brace and what follows it.
unfoldable pub from : Bytes → Entry → List Entry → Bytes → Bytes
from ind e [] rest = member_text e.key e.written (b'\n' ∷ (ind ++ b'}' ∷ rest))
from ind e (e' ∷ es) rest =
    member_text e.key e.written (b',' ∷ b'\n' ∷ (ind ++ b' ' ∷ b' ' ∷ from ind e' es rest))

-- Fuel that is enough to read them.
unfoldable pub cost : Entry → List Entry → ℕ
cost e [] = suc (length e.written)
cost e (e' ∷ es) = suc (length e.written + cost e' es)

pub skip_spaces-append :
    (ind s : Bytes) → all is_json_space ind ≡ true → skip_spaces (ind ++ s) ≡ skip_spaces s
unfolding skip_spaces
skip_spaces-append [] s h = refl
skip_spaces-append (c ∷ ind) s h =
    let later = skip_spaces-append ind s (ground arith) in ground arith

pub skip_spaces-from :
    (ind : Bytes) (e : Entry) (es : List Entry) (rest : Bytes)
    → skip_spaces (from ind e es rest) ≡ from ind e es rest
unfolding skip_spaces from
skip_spaces-from ind e [] rest = refl
skip_spaces-from ind e (e' ∷ es) rest = refl

pub read_members-from :
    (ind : Bytes) (e : Entry) (es : List Entry) (rest : Bytes) (f : ℕ)
    → all is_json_space ind ≡ true
    → AreEntries (e ∷ es)
    → cost e es ≤ f
    → read_members f (from ind e es rest) ≡ some (members_of (e ∷ es), rest)
unfolding from cost members_of
read_members-from ind e [] rest zero h w l = absurd (omega arith)
read_members-from ind e (e' ∷ es) rest zero h w l = absurd (omega arith)
read_members-from ind e [] rest (suc f) h ((ascii_key, w), _) l =
    read_members-last e.key e.written e.value f (ind ++ b'}' ∷ rest) rest ascii_key w (omega arith)
      (skip_spaces-append ind (b'}' ∷ rest) h ∙ (unfold skip_spaces in refl))
read_members-from ind e (e' ∷ es) rest (suc f) h ((ascii_key, w), ws) l =
    let line : skip_spaces (b'\n' ∷ (ind ++ b' ' ∷ b' ' ∷ from ind e' es rest))
        ≡ from ind e' es rest =
      unfold skip_spaces in
      (skip_spaces-append ind (b' ' ∷ b' ' ∷ from ind e' es rest) h
        ∙ skip_spaces-from ind e' es rest) in
    read_members-more e.key e.written e.value f _ ascii_key w (omega arith)
    ∙ rw (line, read_members-from ind e' es rest f h ws (omega arith)) refl
