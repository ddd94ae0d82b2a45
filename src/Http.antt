-- ===== src/Http.antt =====
-- What the handlers use of Go's net/http and net/http/httputil: requests, the response writer and
-- the reverse proxy. Headers with several values, the headers of a response, hop-by-hop headers,
-- protocol switches and escaped paths are left out.
mod Paths
pub mod Proxied
unfoldable pub use Paths.*
use Prim.Native.String.{◌++◌}
use kopilot.Base.{
  ℕ, String, List, [], ◌∷◌, Bool, true, false, Option, none, some, Table, lookup, insert,
  if◌then◌else◌, Error, Result, ok, err, Outcome, done, ◌>>=◌, ◌==◌,
}
use kopilot.Base

pub record Url : Type 0 where
  pub scheme : String
  pub host : String
  pub path : String

-- The body of a request, a reader that is read once: whoever reads or closes it leaves it spent.
pub data Body : Type 0 where
  no_body spent : Body
  unread : String → Body

abbrev pub close_body : Body → Body
close_body no_body = no_body
close_body spent = spent
close_body (unread text) = spent

-- `client` is the IP address of `RemoteAddr`, where that is one with a port.
pub record Request : Type 0 where
  pub method : String
  pub scheme : String
  pub host : String
  pub path : String
  pub query : Table String
  pub header : Table String
  pub body : Body
  pub client : Option String

-- The body as far as it can be read, and whether the connection fails behind that.
pub record Response : Type 0 where
  pub status : ℕ
  pub body : String
  pub broken : Bool

-- `http.ResponseWriter`: the status once it is sent, the pieces of the body, whether the connection
-- was taken over by a protocol switch, whether the connection to the client fails, by which writes
-- return an error, and whether the handler has ended by the panic with `http.ErrAbortHandler`, by
-- which net/http breaks the answer off.
pub record Writer : Type 0 where
  pub status : Option ℕ
  pub body : List String
  pub hijacked : Bool
  pub fails : Bool
  pub aborted : Bool

abbrev pub fresh : Writer
fresh = record { status = none; body = []; hijacked = false; fails = false; aborted = false }

abbrev sent : Option ℕ → ℕ → Option ℕ
sent none code = some code
sent (some old) code = some old

-- The first status stays; a connection that was taken over gets none.
unfoldable pub write_header : ℕ → Writer → Writer
write_header code w = if w.hijacked then w else record w { status = sent w.status code }

-- Whether `Write` returns an error, of a piece that is not empty: an empty one is not written.
abbrev pub cannot_write : String → Writer → Bool
cannot_write piece w = if piece == "" then false else (if w.fails then true else w.hijacked)

unfoldable pub write : String → Writer → Writer
write piece w = if w.hijacked then w else record w {
  status = sent w.status 200;
  body = if w.fails then w.body else Base.◌++◌ w.body (piece ∷ []);
}

-- `http.Error(w, text, code)`.
unfoldable pub http_error : String → ℕ → Writer → Writer
unfolding write_header write
http_error text code w = write (text ++ "\n") (write_header code w)

-- `r.URL.Query().Get(name)`: the first value, or the empty text.
unfoldable pub query_get : Request → String → String
query_get r name = elim (lookup name r.query) [ none ↦ "" | some v ↦ v ]

-- A header without a user agent gets an empty one, by which net/http sends none.
unfoldable pub with_user_agent : Table String → Table String
with_user_agent header = elim (lookup "User-Agent" header) [
  | none ↦ insert "User-Agent" "" header
  | some v ↦ header
]

-- What `ServeHTTP` does to the header behind the director: the client's address is appended.
unfoldable pub forwarded_for : Option String → Table String → Table String
forwarded_for none header = header
forwarded_for (some ip) header =
    insert "X-Forwarded-For"
      (elim (lookup "X-Forwarded-For" header) [ none ↦ ip | some prior ↦ prior ++ (", " ++ ip) ])
      header

abbrev pub forwarded : Request → Request
forwarded r = record r { header = forwarded_for r.client r.header }

-- The director of `httputil.NewSingleHostReverseProxy(target)`.
unfoldable pub single_host : Url → Request → Request
unfolding single_joining_slash with_user_agent
single_host target r = record r {
  scheme = target.scheme;
  host = target.host;
  path = single_joining_slash target.path r.path;
  header = with_user_agent r.header;
}

-- `httputil.ReverseProxy` over a state of its surroundings.
pub record ReverseProxy (S : Type 0) : Type 0 where
  pub director : Request → Request
  pub transport : Request → S → Outcome (Result Response × S)
  pub modify_response : Response → Option Error
  pub error_handler : Writer → Request → Error → S → Outcome (Writer × S)

abbrev pub modify_nothing : Response → Option Error
modify_nothing resp = none

-- `copyHeader`, `WriteHeader` and the copy of the body. Where the copy fails, on either side,
-- `ServeHTTP` panics with `http.ErrAbortHandler`.
unfoldable pub copy_response : Response → Writer → Writer
unfolding write_header write
copy_response resp w =
    let copied = write resp.body (write_header resp.status w) in
    if resp.broken
    then record copied { aborted = true }
    else (if cannot_write resp.body w then record copied { aborted = true } else copied)

module _ {S : Type 0} where
  -- The handler of a proxy that sets none.
  abbrev pub default_error_handler : Writer → Request → Error → S → Outcome (Writer × S)
  default_error_handler w r e s = done (write_header 502 w, s)

  -- `(*ReverseProxy).ServeHTTP`. The error handler is given the outgoing request, as the director
  -- and the forwarded header left it; its body is closed, since a `RoundTripper` closes the body, also where it fails.
  unfoldable pub serve_http : ReverseProxy S → Writer → Request → S → Outcome (Writer × S)
  serve_http rp w r s = do
    let out = forwarded (rp.director r)
    let back = record out { body = close_body out.body }
    (res, s') ← rp.transport out s
    elim res [
      | err e ↦ rp.error_handler w back e s'
      | ok resp ↦ elim (rp.modify_response resp) [
        | some e ↦ rp.error_handler w back e s'
        | none ↦ done (copy_response resp w, s')
      ]
    ]
