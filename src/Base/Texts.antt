-- ===== src/Base/Texts.antt =====
-- What the checks of texts use of Python's strings.
use Prim.Native.Nat.{ℕ, zero, suc}
use Prim.Native.String.{String, ◌∷◌ as char_cons, [] as no_text}
use Prim.Native.Char.{Char, code}
use text.Mathlib.Text.{starts_with, ◌==◌ as str_eq}
use mathlib.Core.Bool.{Bool, true, false, ◌&&◌, ◌||◌}
use llm_arbitrage_system.Base.Tests.{leb, ◌==◌, if◌then◌else◌}

abbrev pub char_count : String → ℕ
char_count no_text = 0
char_count (char_cons c s) = suc (char_count s)

-- `character in "0123456789abcdef"`
abbrev pub is_hex : Char → Bool
is_hex c = (leb 48 (code c) && leb (code c) 57) || (leb 97 (code c) && leb (code c) 102)

abbrev pub all_hex : String → Bool
all_hex no_text = true
all_hex (char_cons c s) = is_hex c && all_hex s

abbrev pub has_nul : String → Bool
has_nul no_text = false
has_nul (char_cons c s) = code c == 0 || has_nul s

-- `str.isspace` of one character
abbrev pub is_space : Char → Bool
is_space c =
    let n = code c in
    (leb 9 n && leb n 13)
    || (leb 28 n && leb n 32)
    || n == 133
    || n == 160
    || n == 5760
    || (leb 8192 n && leb n 8202)
    || n == 8232
    || n == 8233
    || n == 8239
    || n == 8287
    || n == 12288

abbrev pub lstrip : String → String
lstrip no_text = no_text
lstrip (char_cons c s) = if is_space c then lstrip s else char_cons c s

abbrev pub rstrip : String → String
rstrip no_text = no_text
rstrip (char_cons c s) =
    let rest = rstrip s in if is_space c && str_eq rest "" then no_text else char_cons c rest

abbrev pub strip : String → String
strip s = lstrip (rstrip s)

-- `text[n:]`
abbrev pub drop_chars : ℕ → String → String
drop_chars n no_text = no_text
drop_chars zero s = s
drop_chars (suc n) (char_cons c s) = drop_chars n s

-- `text[:n]`
abbrev pub take_chars : ℕ → String → String
take_chars n no_text = no_text
take_chars zero s = no_text
take_chars (suc n) (char_cons c s) = char_cons c (take_chars n s)

-- `text.startswith(prefix)` and the rest is so many hexadecimal digits
abbrev pub has_hex_form : String → ℕ → String → Bool
has_hex_form prefix digits text =
    let suffix = drop_chars (char_count prefix) text in
    starts_with text prefix && (char_count suffix == digits && all_hex suffix)
