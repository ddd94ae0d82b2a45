-- ===== src/Base/Text.antt =====
-- Go's strings: `strings.TrimPrefix`, and the joining of URL paths in net/http/httputil.
use Prim.Native.String.{String, [], ◌∷◌, ◌++◌, len, slice}
use Prim.Native.Char.{Char, code}
use mathlib.Core.Path.{◌≡◌, refl, sym, ap, ap₂, ◌∙◌}
use text.Mathlib.TextLemmas.{nil-append, cons-append, head-eq_of_cons-eq, tail-eq_of_cons-eq}
use text.Mathlib.Text.{starts_with}
use text.Mathlib.TextPositions.{starts_with-append, slice-append_right, len-append}
use kopilot.Base.Tests.{if◌then◌else◌}

-- `strings.TrimPrefix(s, prefix)`.
unfoldable pub trim_prefix : String → String → String
trim_prefix s prefix = if starts_with s prefix then slice s (len prefix) (len s) else s

pub trim_prefix-append : (p s : String) → trim_prefix (p ++ s) p ≡ s
unfolding trim_prefix
trim_prefix-append p s = rw (starts_with-append p s, len-append p s) (slice-append_right p s)

-- No character of the text is a slash.
abbrev pub SlashFree : String → Type 0
SlashFree [] = Unit
SlashFree (c ∷ s) = ¬ (code c ≡ b'/') × SlashFree s

abbrev pub slash : Char
slash = "/"

pub slash_cons : (b : String) → "/" ++ b ≡ slash ∷ b
slash_cons b = cons-append slash [] b ∙ ap (◌∷◌ slash) (nil-append b)

-- A text is cut at its first slash in one way.
pub slash_split :
    (a a' b b' : String)
    → SlashFree a
    → SlashFree a'
    → a ++ ("/" ++ b) ≡ a' ++ ("/" ++ b')
    → (a ≡ a') × (b ≡ b')
slash_split [] [] b b' _ _ e =
    let e' : slash ∷ b ≡ slash ∷ b' =
      sym (nil-append _ ∙ slash_cons b) ∙ e ∙ (nil-append _ ∙ slash_cons b') in
    (refl, tail-eq_of_cons-eq e')
slash_split [] (c ∷ a') b b' _ (h, _) e =
    let e' : slash ∷ b ≡ c ∷ (a' ++ ("/" ++ b')) =
      sym (nil-append _ ∙ slash_cons b) ∙ e ∙ cons-append c a' _ in
    absurd (h (ap code (sym (head-eq_of_cons-eq e'))))
slash_split (c ∷ a) [] b b' (h, _) _ e =
    let e' : c ∷ (a ++ ("/" ++ b)) ≡ slash ∷ b' =
      sym (cons-append c a _) ∙ e ∙ (nil-append _ ∙ slash_cons b') in
    absurd (h (ap code (head-eq_of_cons-eq e')))
slash_split (c ∷ a) (d ∷ a') b b' (_, h) (_, h') e =
    let e' : c ∷ (a ++ ("/" ++ b)) ≡ d ∷ (a' ++ ("/" ++ b')) =
      sym (cons-append c a _) ∙ e ∙ cons-append d a' _ in
    let (same, rest) = slash_split a a' b b' h h' (tail-eq_of_cons-eq e') in
    (ap₂ ◌∷◌ (head-eq_of_cons-eq e') same, rest)
