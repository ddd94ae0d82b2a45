-- ===== src/Http/Paths.antt =====
-- `singleJoiningSlash` of net/http/httputil, by which a proxy puts its target's path in front.
use Prim.Native.Char.{Char, code}
use Prim.Native.String.{String, [], ◌∷◌, ◌++◌}
use text.Mathlib.Text.{starts_with}
use text.Mathlib.TextLemmas.{nil-append, cons-append}
use text.Mathlib.TextPositions.{starts_with-append}
use kopilot.Base.{
  ◌≡◌, ◌≢◌, refl, ap, sym, ◌∙◌, Bool, false, nat_eq, if◌then◌else◌, SlashFree, arith, trim_prefix,
}

-- `strings.HasSuffix(s, "/")`.
unfoldable pub ends_with_slash : String → Bool
ends_with_slash [] = false
ends_with_slash (c ∷ []) = nat_eq (code c) b'/'
ends_with_slash (c ∷ d ∷ s) = ends_with_slash (d ∷ s)

unfoldable pub single_joining_slash : String → String → String
single_joining_slash a b =
    if starts_with b "/"
    then (if ends_with_slash a then a ++ trim_prefix b "/" else a ++ b)
    else (if ends_with_slash a then a ++ b else a ++ ("/" ++ b))

ends_with_slash-append :
    (a : String) (c : Char) (s : String) → ends_with_slash (a ++ (c ∷ s)) ≡ ends_with_slash (c ∷ s)
unfolding ends_with_slash
ends_with_slash-append [] c s = ap ends_with_slash (nil-append (c ∷ s))
ends_with_slash-append (x ∷ []) c s =
    ap ends_with_slash (cons-append x [] (c ∷ s) ∙ ap (◌∷◌ x) (nil-append (c ∷ s)))
ends_with_slash-append (x ∷ y ∷ a) c s =
    ap ends_with_slash (cons-append x (y ∷ a) (c ∷ s) ∙ ap (◌∷◌ x) (cons-append y a (c ∷ s)))
    ∙ (ap ends_with_slash (sym (cons-append y a (c ∷ s))) ∙ ends_with_slash-append (y ∷ a) c s)

ends_with_slash-SlashFree : (s : String) → SlashFree s → ends_with_slash s ≡ false
unfolding ends_with_slash
ends_with_slash-SlashFree [] h = refl
ends_with_slash-SlashFree (c ∷ []) (h, _) = ground arith
ends_with_slash-SlashFree (c ∷ d ∷ s) (_, h) = ends_with_slash-SlashFree (d ∷ s) h

-- A text that ends in a name with no slash does not end in a slash.
pub ends_with_slash-append_SlashFree :
    (a s : String) → SlashFree s → s ≢ [] → ends_with_slash (a ++ s) ≡ false
ends_with_slash-append_SlashFree a [] h nonempty = absurd (nonempty refl)
ends_with_slash-append_SlashFree a (c ∷ s) h nonempty =
    ends_with_slash-append a c s ∙ ends_with_slash-SlashFree (c ∷ s) h

-- A path that begins with a slash is put behind a prefix that ends in none as it stands.
pub single_joining_slash-append :
    (a rest : String)
    → ends_with_slash a ≡ false
    → single_joining_slash a ("/" ++ rest) ≡ a ++ ("/" ++ rest)
unfolding single_joining_slash
single_joining_slash-append a rest h = rw (starts_with-append "/" rest, h)
