-- ===== src/Protocol/Text.antt =====
-- The syntax checks of crates/protocol/src/lib.rs on identifiers, digests and game profiles.
use Prim.Native.Char.{code}
use Prim.Native.String.{len}
use union_core.Prelude.{
  ℕ, String, List, [], ◌∷◌, Bool, ◌&&◌, ◌||◌, not, denied, Result, refuse_if, ◌==◌, ltb, leb,
  nat_key, all, any,
}

abbrev pub codes : String → List ℕ
codes String.[] = []
codes (String.◌∷◌ c s) = code c ∷ codes s

-- `char::is_control`: the category Cc
unfoldable pub is_control : ℕ → Bool
is_control c = ltb c 0x20 || (leb 0x7f c && ltb c 0xa0)

-- `char::is_whitespace`: the property White_Space
unfoldable pub is_whitespace : ℕ → Bool
is_whitespace c =
    (leb 0x9 c && leb c 0xd)
    || c == 0x20
    || c == 0x85
    || c == 0xa0
    || c == 0x1680
    || (leb 0x2000 c && leb c 0x200a)
    || c == 0x2028
    || c == 0x2029
    || c == 0x202f
    || c == 0x205f
    || c == 0x3000

-- `value.trim().is_empty()`
unfoldable pub is_blank : String → Bool
unfolding is_whitespace all
is_blank value = all is_whitespace (codes value)

abbrev pub max_identifier_bytes : ℕ
max_identifier_bytes = 128

unfoldable pub validate_identifier : String → Result (Unit {0})
unfolding is_blank is_control any
validate_identifier value =
    refuse_if
      (is_blank value || ltb max_identifier_bytes (len value) || any is_control (codes value))
      denied

unfoldable pub is_lower_hex : ℕ → Bool
is_lower_hex c = (leb b'0' c && leb c b'9') || (leb b'a' c && leb c b'f')

-- The bytes of a text all lie in ASCII exactly where its characters do.
unfoldable pub validate_lower_hex : String → ℕ → Result (Unit {0})
unfolding is_lower_hex all
validate_lower_hex value width =
    refuse_if (not (len value == width) || not (all is_lower_hex (codes value))) denied

unfoldable pub validate_digest : String → Result (Unit {0})
unfolding validate_lower_hex
validate_digest value = validate_lower_hex value 64

unfoldable pub validate_game_profile : String → Result (Unit {0})
unfolding validate_lower_hex
validate_game_profile value = validate_lower_hex value 32
