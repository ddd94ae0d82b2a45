-- ===== src/Hub/Relaying/Sending.antt =====
-- What a hub sends out for a request, and what its search among the peers starts from.
use kopilot.Base.{
  ◌∙◌, ◌≡◌, refl, String, some, lookup, Table, arith, lookup-insert, eq_iff, Option-cases, inl, inr,
}
use kopilot.Http.Proxied.{lookup-forwarded_for}
use kopilot.Http.{
  forwarded, Body, no_body, spent, unread, close_body, Url, Request, with_user_agent, single_host,
}

pub with_user_agent-has :
    (header : Table String)
    → (agent : String) × (lookup "User-Agent" (with_user_agent header) ≡ some agent)
unfolding with_user_agent
with_user_agent-has header = elim (Option-cases (lookup "User-Agent" header)) [
  | inl missing ↦ (
    "",
    ground (
      arith,
      lookup-insert "User-Agent" "User-Agent" "" header,
      eq_iff "User-Agent" "User-Agent",
    ),
  )
  | inr (agent, has) ↦ (agent, rw (has, with_user_agent) has)
]

pub with_user_agent-given :
    (header : Table String) (agent : String)
    → lookup "User-Agent" header ≡ some agent
    → with_user_agent header ≡ header
unfolding with_user_agent
with_user_agent-given header agent has = rw (has, with_user_agent) refl

-- The request that a proxy sends out: its director's work on what it got, with the client's address
-- appended to the forwarded header.
abbrev pub outgoing : Url → String → Request → Request
outgoing target sub r = forwarded (record (single_host target r) { path = sub })

-- The request that the proxy's error handler gets.
abbrev pub handed_on : Url → String → Request → Request
handed_on target sub r = record (outgoing target sub r) { body = close_body r.body }

pub close_body-close_body : (b : Body) → close_body (close_body b) ≡ close_body b
close_body-close_body no_body = refl
close_body-close_body spent = refl
close_body-close_body (unread text) = refl

pub handed_on-agent :
    (target : Url) (sub : String) (r : Request)
    → (agent : String) × (lookup "User-Agent" (handed_on target sub r).header ≡ some agent)
unfolding single_host
handed_on-agent target sub r =
    let (agent, has) = with_user_agent-has r.header in
    (
      agent,
      lookup-forwarded_for "User-Agent" r.client (with_user_agent r.header)
            (λ k. ground (arith, eq_iff "User-Agent" "X-Forwarded-For"))
          ∙ has,
    )
