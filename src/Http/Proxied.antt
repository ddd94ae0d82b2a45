-- ===== src/Http/Proxied.antt =====
-- What a reverse proxy makes of a request, and when a write fails.
use kopilot.Base.{
  true, ◌==◌, ◌⊎◌, inl, inr, Bool-cases, text_eq-false, refl, ◌≡◌, ◌≢◌, ap, String, Option, none,
  some, Table, lookup, insert, lookup-insert, eq_iff, arith,
}
use kopilot.Http.{cannot_write, Request, Writer, ReverseProxy, forwarded_for, serve_http}

pub lookup-forwarded_for :
    (name : String) (client : Option String) (header : Table String)
    → name ≢ "X-Forwarded-For"
    → lookup name (forwarded_for client header) ≡ lookup name header
unfolding forwarded_for
lookup-forwarded_for name none header apart = refl
lookup-forwarded_for name (some ip) header apart = kept _
  where
    kept : (v : String) → lookup name (insert "X-Forwarded-For" v header) ≡ lookup name header
    kept v =
        ground (arith, lookup-insert "X-Forwarded-For" name v header, eq_iff "X-Forwarded-For" name)

-- Of its director a proxy uses only what that makes of the request at hand.
pub serve_http-director :
    {S : Type 0} (rp : ReverseProxy S) (w : Writer) (r out : Request) (s : S)
    → rp.director r ≡ out
    → serve_http rp w r s ≡ serve_http (record rp { director = λ _. out }) w r s
unfolding serve_http
serve_http-director {S} rp w r out s e =
    ap (λ (x : Request). serve_http (record rp { director = λ _. x }) w r s) e

pub cannot_write-true :
    (text : String) (w : Writer)
    → cannot_write text w ≡ true
    → (text ≢ "") × ((w.fails ≡ true) ⊎ (w.hijacked ≡ true))
cannot_write-true text w h = elim (Bool-cases (text == "")) [
  | inl empty ↦ absurd (ground arith)
  | inr full ↦ elim (Bool-cases w.fails) [
    | inl fails ↦ (λ k. ground (arith, eq_iff text ""), inl fails)
    | inr holds ↦ (λ k. ground (arith, eq_iff text ""), inr (ground arith))
  ]
]

pub cannot_write-fails :
    (text : String) (w : Writer)
    → text ≢ ""
    → (w.fails ≡ true) ⊎ (w.hijacked ≡ true)
    → cannot_write text w ≡ true
cannot_write-fails text w h (inl fails) = ground (arith, text_eq-false text "" h)
cannot_write-fails text w h (inr taken) = ground (arith, text_eq-false text "" h)
