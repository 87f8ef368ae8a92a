-- ===== src/Integrity/Hash.antt =====
-- integrity.go: `hashContent`, over SHA-256.
use schroedinger_sync.Base.{ℕ, ◌/◌, ◌%◌, ◌<◌, ◌≡◌, refl, arith, true, [], ◌∷◌, all, Bytes}
use schroedinger_sync.Text.Runes.Bounds.{is_ascii}
use schroedinger_sync.Json.Write.{hex}

-- `hex.EncodeToString`, two digits for every byte.
unfoldable pub encode_to_string : Bytes → Bytes
encode_to_string [] = []
encode_to_string (b ∷ s) = hex (b / 16 % 16) ∷ hex (b % 16) ∷ encode_to_string s

module _ (sum256 : Bytes → Bytes) where
  unfoldable pub hash_content : Bytes → Bytes
  hash_content content = encode_to_string (sum256 content)

is_ascii-hex : (d : ℕ) → d < 16 → is_ascii (hex d) ≡ true
unfolding hex
is_ascii-hex d h = ground arith

is_ascii-encode_to_string : (s : Bytes) → all is_ascii (encode_to_string s) ≡ true
unfolding encode_to_string
is_ascii-encode_to_string [] = refl
is_ascii-encode_to_string (b ∷ s) =
    rw (is_ascii-hex (b / 16 % 16) (omega arith), is_ascii-hex (b % 16) (omega arith))
      (is_ascii-encode_to_string s)

-- A hash is written in ASCII.
pub is_ascii-hash_content :
    (sum256 : Bytes → Bytes) (content : Bytes) → all is_ascii (hash_content sum256 content) ≡ true
unfolding hash_content
is_ascii-hash_content sum256 content = is_ascii-encode_to_string (sum256 content)
