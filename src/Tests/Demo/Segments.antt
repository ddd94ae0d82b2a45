-- ===== src/Tests/Demo/Segments.antt =====
-- The route "/proxy/{namespace}/{name}" as a function that computes, for the tests.
use Prim.Native.Char.{code}
use Prim.Native.String.{String, [], ◌∷◌, ◌++◌}
use text.Mathlib.TextLemmas.{nil-append, cons-append, append_assoc}
use kopilot.Base.{
  ◌≡◌, sym, ap, ◌∙◌, Option, some, nat_eq, if◌then◌else◌, SlashFree, slash_cons, trim_prefix,
  trim_prefix-append, arith,
}
use kopilot.Hub.Peer.{proxy_prefix}

-- The text before the first slash, and the rest from there on.
unfoldable pub cut : String → String × String
cut [] = ([], [])
cut (c ∷ s) = let (a, b) = cut s in if nat_eq (code c) b'/' then ([], c ∷ s) else (c ∷ a, b)

cut-append : (a b : String) → SlashFree a → cut (a ++ ("/" ++ b)) ≡ (a, "/" ++ b)
unfolding cut
cut-append [] b h =
    ap cut (nil-append ("/" ++ b) ∙ slash_cons b)
    ∙ ap (λ (t : String). ([], t)) (sym (slash_cons b))
cut-append (c ∷ a) b (h, hs) =
    ap cut (cons-append c a ("/" ++ b)) ∙ ground (arith, cut-append a b hs)

unfoldable pub segments : String → Option (String × String)
segments path =
    let (namespace, more) = cut (trim_prefix path "/proxy/") in
    let (name, rest) = cut (trim_prefix more "/") in some (namespace, name)

pub segments_lem :
    (namespace name rest : String)
    → SlashFree namespace
    → SlashFree name
    → segments (proxy_prefix namespace name ++ ("/" ++ rest)) ≡ some (namespace, name)
unfolding segments
segments_lem namespace name rest f f' =
    let tail = name ++ ("/" ++ rest) in
    let whole : proxy_prefix namespace name ++ ("/" ++ rest)
        ≡ "/proxy/" ++ (namespace ++ ("/" ++ tail)) =
      simp append_assoc in
    ground (
      arith,
      whole,
      trim_prefix-append "/proxy/" (namespace ++ ("/" ++ tail)),
      cut-append namespace tail f,
      trim_prefix-append "/" tail,
      cut-append name rest f',
    )

-- Of the paths that are not clean only those with two slashes in a row are told apart here.
unfoldable pub cleaned : String → String
cleaned [] = []
cleaned (c ∷ s) =
    let more = cleaned s in if nat_eq (code c) b'/' then c ∷ trim_prefix more "/" else c ∷ more
