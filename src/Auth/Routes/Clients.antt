-- ===== src/Auth/Routes/Clients.antt =====
-- What the routes store about a client cannot break the row.
use magna_cms.Prelude.{
  ◌≤◌, ◌≡◌, refl, Text, Option, none, some, [], ◌∷◌, length, length-take, strip, arith,
}
use magna_cms.Auth.Routes.{
  Request, ParsedIp, no_ip, unscoped, scoped, client_user_agent, first_hop, valid_ip, or_peer,
  client_ip,
}

-- An optional text passes a test if it is there.
abbrev pub IsNoneOr : (Text → Type 0) → Option Text → Type 0
IsNoneOr P none = Unit {0}
IsNoneOr P (some t) = P t

module _ (ip_address : Text → ParsedIp) where
  abbrev pub IsIp : Text → Type 0
  IsIp t = ip_address t ≡ unscoped

  valid_ip-IsIp : (candidate : Option Text) → IsNoneOr IsIp (valid_ip ip_address candidate)
  unfolding valid_ip
  valid_ip-IsIp none = tt
  valid_ip-IsIp (some []) = tt
  valid_ip-IsIp (some (c ∷ t)) = go (ip_address (c ∷ t)) refl
    where
      go :
          (p : ParsedIp)
          → ip_address (c ∷ t) ≡ p
          → IsNoneOr IsIp (elim p [ unscoped ↦ some (c ∷ t) | _ ↦ none ])
      go no_ip e = tt
      go unscoped e = e
      go scoped e = tt

  or_peer-IsIp :
      (a b : Option Text)
      → IsNoneOr IsIp a
      → IsNoneOr IsIp b
      → IsNoneOr IsIp (or_peer ip_address a b)
  or_peer-IsIp none b h k = k
  or_peer-IsIp (some t) b h k = h

  client_ip-IsIp : (request : Request) → IsNoneOr IsIp (client_ip ip_address request)
  unfolding client_ip
  client_ip-IsIp request = go request.x_forwarded_for
    where
      go :
          (fwd : Option Text)
          → IsNoneOr IsIp (client_ip ip_address (record request { x_forwarded_for = fwd }))
      go none = valid_ip-IsIp request.client
      go (some []) = valid_ip-IsIp request.client
      go (some (c ∷ t)) =
          or_peer-IsIp _ _ (valid_ip-IsIp (some (strip (first_hop (c ∷ t)))))
            (valid_ip-IsIp request.client)

  agent-short : (request : Request) → IsNoneOr (λ t. length t ≤ 500) (client_user_agent request)
  unfolding client_user_agent
  agent-short request = go request.user_agent
    where
      go :
          (ua : Option Text)
          → IsNoneOr (λ t. length t ≤ 500) (client_user_agent (record request { user_agent = ua }))
      go none = tt
      go (some []) = tt
      go (some (c ∷ t)) = omega (arith, length-take 500 (c ∷ t))

  -- Whatever a client writes into X-Forwarded-For and User-Agent, the address that is passed to the
  -- service is none or a text that parses as an address without a scope id, and the agent is none
  -- or a text of at most 500 characters.
  client_bounds :
      (request : Request)
      → IsNoneOr IsIp (client_ip ip_address request)
        × IsNoneOr (λ t. length t ≤ 500) (client_user_agent request)
  client_bounds request = (client_ip-IsIp request, agent-short request)
