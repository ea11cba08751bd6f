-- ===== src/Validation.antt =====
-- bus/validation.go: what the runtime checks before a call reaches the store. Each check tells
-- whether its input passes; the error is always the one for an invalid argument. A text is a sequence
-- of Unicode code points, hence valid UTF-8.
pub mod Bounds
use october_bus.Base.{
  ℕ, zero, suc, ◌+◌, String, Bool, true, false, not, Option, none, some, List, [], ◌∷◌, ◌&&◌, ◌||◌,
  if◌then◌else◌, ltb, leb, ◌==◌, ◌is◌, length,
}
use Prim.Native.Char.{Char, code}
use october_bus.Protocol.{AgentCapability, ContextItem}
use october_bus.Rows.{member}

abbrev pub between : ℕ → ℕ → ℕ → Bool
between low high n = leb low n && leb n high

-- [A-Za-z0-9]
abbrev pub is_alphanumeric : ℕ → Bool
is_alphanumeric n = between 65 90 n || (between 97 122 n || between 48 57 n)

-- [A-Za-z0-9_.:-]
abbrev pub is_identity_character : ℕ → Bool
is_identity_character n =
    is_alphanumeric n || ((n == 95) || ((n == 46) || ((n == 58) || (n == 45))))

-- At most so many characters, all of them of the class.
unfoldable pub all_of : (ℕ → Bool) → ℕ → String → Bool
all_of p n String.[] = true
all_of p zero (String.◌∷◌ c s) = false
all_of p (suc n) (String.◌∷◌ c s) = p (code c) && all_of p n s

-- identityPattern: ^[A-Za-z0-9][A-Za-z0-9_.:-]{0,127}$
unfoldable pub matches_identity : String → Bool
matches_identity String.[] = false
matches_identity (String.◌∷◌ c s) = is_alphanumeric (code c) && all_of is_identity_character 127 s

unfoldable pub validate_identity : String → Bool → Bool
validate_identity value optional = ((value is "") && optional) || matches_identity value

-- unicode.IsSpace
abbrev pub is_space : ℕ → Bool
is_space n =
    between 9 13 n
    || ((n == 32)
        || ((n == 133)
            || ((n == 160)
                || ((n == 5760)
                    || (between 8192 8202 n
                        || (between 8232 8233 n
                            || ((n == 8239) || ((n == 8287) || (n == 12288)))))))))

-- strings.TrimSpace leaves nothing.
unfoldable pub is_blank : String → Bool
is_blank String.[] = true
is_blank (String.◌∷◌ c s) = is_space (code c) && is_blank s

unfoldable pub contains_nul : String → Bool
contains_nul String.[] = false
contains_nul (String.◌∷◌ c s) = (code c == 0) || contains_nul s

-- The bytes of a character in UTF-8.
abbrev pub width : ℕ → ℕ
width n = if ltb n 128 then 1 else (if ltb n 2048 then 2 else (if ltb n 65536 then 3 else 4))

-- len
unfoldable pub byte_count : String → ℕ
byte_count String.[] = 0
byte_count (String.◌∷◌ c s) = width (code c) + byte_count s

unfoldable pub validate_text : String → ℕ → Bool → Bool
validate_text value max optional =
    not (contains_nul value)
    && (((value is "") && optional) || (not (is_blank value) && leb (byte_count value) max))

unfoldable pub capabilities_valid : List String → List AgentCapability → Bool
capabilities_valid seen [] = true
capabilities_valid seen (c ∷ cs) =
    validate_identity c.name false
    && (validate_text c.description 512 true
        && (not (member c.name seen) && capabilities_valid (c.name ∷ seen) cs))

unfoldable pub validate_capabilities : List AgentCapability → Bool
validate_capabilities values = leb (length values) 64 && capabilities_valid [] values

abbrev pub is_context_kind : String → Bool
is_context_kind kind =
    (kind is "text") || ((kind is "file") || ((kind is "url") || (kind is "reference")))

unfoldable pub context_items_valid : List ContextItem → Bool
context_items_valid [] = true
context_items_valid (i ∷ items) =
    is_context_kind i.kind
    && (validate_text i.title 512 false
        && (validate_text i.text 65536 true
            && (validate_text i.uri 4096 true && context_items_valid items)))

unfoldable pub context_bytes : List ContextItem → ℕ
context_bytes [] = 0
context_bytes (i ∷ items) =
    byte_count i.title
    + byte_count i.text
    + byte_count i.uri
    + byte_count i.media_type
    + context_bytes items

unfoldable pub validate_context : List ContextItem → Bool
validate_context values =
    leb (length values) 32 && (context_items_valid values && leb (context_bytes values) 262144)

-- A lease of 0 stands for five minutes.
unfoldable pub normalized_lease : ℕ → Option ℕ
normalized_lease value =
    if value == 0
    then some 300000
    else (if ltb value 30000 || ltb 86400000 value then none else some value)
