-- ===== src/DocumentService/StatusRoute/Sessions.antt =====
-- What a session of the status route leaves in the connection manager.
use ai_document_analysis.Prelude.{
  ℕ, ◌≡◌, ◌≢◌, refl, sym, ap, ◌∙◌, inl, inr, Bool, false, Option, none, some, List, [], ◌∷◌, ◌++◌,
  Text, text-Eq, text_eq, text_eq_iff, nat_eq, filter, All, Bool-cases, arith, if◌then◌else◌,
}
use ai_document_analysis.Shared.Exceptions.{Exception, Result, ok, raise}
use ai_document_analysis.Shared.Json.{Json}
use ai_document_analysis.Shared.Json.Codec.{Codec}
use ai_document_analysis.Shared.Redis.Channels.{channel_of}
use ai_document_analysis.Shared.Jwt.Tokens.{Jose}
use ai_document_analysis.Shared.Oauth.{CurrentUser, resolve_user_from_token}
use ai_document_analysis.DocumentService.WsManager.{
  Connections, connect, disconnect, connections, remove, send_to_owner,
}
use ai_document_analysis.DocumentService.WsManager.Connections.{
  connections-connect, connections-disconnect,
}
use ai_document_analysis.DocumentService.WsManager.Delivery.{send_to_owner_lem}
use ai_document_analysis.DocumentService.WsManager.Runs.{Call, call, run}
use ai_document_analysis.DocumentService.StatusRoute.{
  Event, serve, served, refused, route_of, document_status_ws,
}

remove-append :
    (ws x : ℕ) (cs : List ℕ) → x ≢ ws → remove ws (cs ++ x ∷ []) ≡ remove ws cs ++ x ∷ []
unfolding remove
remove-append ws x [] h = ground (arith, h)
remove-append ws x (c ∷ cs) h = ground (arith, h, remove-append ws x cs)

remove-remove : (ws x : ℕ) (cs : List ℕ) → remove ws (remove x cs) ≡ remove x (remove ws cs)
unfolding remove
remove-remove ws x [] = refl
remove-remove ws x (c ∷ cs) = ground (arith, remove-remove ws x cs)

remove-filter_refused :
    (ws : ℕ) (p : ℕ → Bool) (cs : List ℕ) → p ws ≡ false → remove ws (filter p cs) ≡ filter p cs
unfolding remove
remove-filter_refused ws p [] h = refl
remove-filter_refused ws p (c ∷ cs) h = elim (Bool-cases (p c)) [
  | inr out ↦ rw out (remove-filter_refused ws p cs h)
  | inl in_list ↦
      let other : c ≢ ws = λ e. cc (ap p e, h, in_list) in
      ground (arith, in_list, other, remove-filter_refused ws p cs h)
]

remove-filter :
    (ws : ℕ) (p : ℕ → Bool) (cs : List ℕ) → remove ws (filter p cs) ≡ filter p (remove ws cs)
unfolding remove
remove-filter ws p [] = refl
remove-filter ws p (c ∷ cs) = elim (Bool-cases (nat_eq c ws)) [
  | inr other ↦ ground (arith, other, remove-filter ws p cs)
  | inl same ↦
      let e : c ≡ ws = ground (arith, same) in
      elim (Bool-cases (p c)) [
        | inl in_list ↦ ground (arith, same, in_list)
        | inr out ↦ rw (out, same) (remove-filter_refused ws p cs (ap p (sym e) ∙ out))
      ]
]

connections-send_to_owner :
    (delivers : ℕ → Bool) (owner j : Text) (m : Connections)
    → connections (send_to_owner delivers owner m).1 j
      ≡ (if text_eq owner j then filter delivers (connections m j) else connections m j)
connections-send_to_owner delivers owner j m =
    let (sent, left, others) = send_to_owner_lem delivers owner j m in
    elim (Bool-cases (text_eq owner j)) [
      | inr other ↦ rw other (others other)
      | inl same ↦ let e : owner ≡ j = (text_eq_iff owner j).0 same in rw (same, sym e) left
    ]

remove_fresh : (ws : ℕ) (cs : List ℕ) → All (λ c. c ≢ ws) cs → remove ws (cs ++ ws ∷ []) ≡ cs
unfolding remove
remove_fresh ws [] h = ground arith
remove_fresh ws (c ∷ cs) h = ground (arith, h.0, remove_fresh ws cs h.1)

-- A call for another socket, or a message to an owner.
abbrev pub Avoids : ℕ → Call → Type 0
Avoids ws (Call.connected owner x) = x ≢ ws
Avoids ws (Call.disconnected owner x) = x ≢ ws
Avoids ws (Call.sent delivers owner) = Unit

module _ (owner : Text) (ws : ℕ) where
  -- The first dictionary without the socket is the second one, as far as `connections` tells.
  abbrev Without : Connections → Connections → Type 0
  Without m m' =
      (j : Text)
      → (if text_eq owner j then remove ws (connections m j) else connections m j)
        ≡ connections m' j

  call-Without :
      (c : Call) (m m' : Connections) → Avoids ws c → Without m m' → Without (call c m) (call c m')
  unfolding call
  call-Without (Call.connected o x) m m' h same j = ground (
    arith,
    connections-connect o j x m,
    connections-connect o j x m',
    same j,
    text_eq_iff o j,
    remove-append ws x (connections m j) h,
  )
  call-Without (Call.disconnected o x) m m' h same j = ground (
    arith,
    connections-disconnect o j x m,
    connections-disconnect o j x m',
    same j,
    text_eq_iff o j,
    remove-remove ws x (connections m j),
  )
  call-Without (Call.sent delivers o) m m' h same j = ground (
    arith,
    connections-send_to_owner delivers o j m,
    connections-send_to_owner delivers o j m',
    same j,
    remove-filter ws delivers (connections m j),
  )

  run-Without :
      (calls : List Call) (m m' : Connections)
      → All (Avoids ws) calls
      → Without m m'
      → Without (run calls m) (run calls m')
  unfolding run
  run-Without [] m m' h same = same
  run-Without (c ∷ calls) m m' h same =
      run-Without calls (call c m) (call c m') h.1 (call-Without c m m' h.0 same)

  connect-Without :
      (m : Connections) → All (λ c. c ≢ ws) (connections m owner) → Without (connect owner ws m) m
  connect-Without m fresh j = elim (Bool-cases (text_eq owner j)) [
    | inr other ↦ rw (other, connections-connect owner j ws m, other) refl
    | inl same ↦
        let e : owner ≡ j = (text_eq_iff owner j).0 same in
        rw (same, connections-connect owner j ws m, same)
          (remove_fresh ws (connections m owner) fresh ∙ ap (connections m) e)
  ]

  -- A session among calls for other sockets.
  session_traceless :
      (calls : List Call) (m : Connections)
      → All (Avoids ws) calls
      → All (λ c. c ≢ ws) (connections m owner)
      → (j : Text)
      → connections (disconnect owner ws (run calls (connect owner ws m))) j
        ≡ connections (run calls m) j
  session_traceless calls m avoid fresh j =
      let same = run-Without calls (connect owner ws m) m avoid (connect-Without m fresh) in
      elim (Bool-cases (text_eq owner j)) [
        | inr other ↦
            connections-disconnect owner j ws (run calls (connect owner ws m))
            ∙ rw other refl
            ∙ (rw other at (same j))
        | inl here ↦
            let e : owner ≡ j = (text_eq_iff owner j).0 here in
            connections-disconnect owner j ws (run calls (connect owner ws m))
            ∙ rw (here, e) refl
            ∙ (rw here at (same j))
      ]

not_served :
    (e : Exception) (user : CurrentUser) (sent : List Json) → refused e ≢ ok (served user sent)
not_served (Exception.unauthorized m) user sent h = cc
not_served (Exception.not_found m) user sent h = cc
not_served (Exception.validation m) user sent h = cc
not_served (Exception.forbidden m) user sent h = cc
not_served (Exception.conflict m) user sent h = cc
not_served (Exception.payload_too_large m) user sent h = cc
not_served (Exception.upstream_service m) user sent h = cc
not_served (Exception.llm_error m) user sent h = cc
not_served (Exception.llm_rate_limited m) user sent h = cc
not_served (Exception.unhandled m) user sent h = cc

module _ (C : Codec) (J : Jose) (is_uuid : Text → Bool) where
  module _ (now : ℕ) (ws : ℕ) (happens : Text → List Event) (others : List Call)
      (m : Connections) where
    route_of-traceless :
        (r : Result CurrentUser)
        → All (Avoids ws) others
        → ((j : Text) → All (λ c. c ≢ ws) (connections m j))
        → (j : Text)
        → connections (route_of C J is_uuid r ws happens others m).1 j
          ≡ connections (run others m) j
    route_of-traceless (raise e) avoid fresh j = refl
    route_of-traceless (ok user) avoid fresh j =
        session_traceless user.id ws others m avoid (fresh user.id) j

    -- A user who is served was resolved, and is sent what the session sends.
    abbrev pub Served : Option Text → CurrentUser → List Json → Type 0
    Served token user sent =
        (t : Text) × (token ≡ some t)
        × (resolve_user_from_token J is_uuid now t ≡ ok user)
        × (sent ≡ serve C (happens (channel_of user.id)))

    route_of-served :
        (r : Result CurrentUser) (user : CurrentUser) (sent : List Json)
        → (route_of C J is_uuid r ws happens others m).0 ≡ ok (served user sent)
        → (r ≡ ok user) × (sent ≡ serve C (happens (channel_of user.id)))
    route_of-served (raise e) user sent h = absurd (not_served e user sent h)
    route_of-served (ok u) user sent h =
        let (same, told) : (u ≡ user) × (serve C (happens (channel_of u.id)) ≡ sent) =
          (cc h, cc h) in
        (cc same, sym told ∙ ap (λ v. serve C (happens (channel_of v.id))) same)

    pub document_status_ws-served :
        (token : Option Text) (user : CurrentUser) (sent : List Json)
        → (document_status_ws C J is_uuid now token ws happens others m).0 ≡ ok (served user sent)
        → Served token user sent
    unfolding document_status_ws
    document_status_ws-served none user sent h = cc h
    document_status_ws-served (some []) user sent h = cc h
    document_status_ws-served (some (c ∷ token)) user sent h =
        let (resolved, told) =
          route_of-served (resolve_user_from_token J is_uuid now (c ∷ token)) user sent h in
        (c ∷ token, refl, resolved, told)

    -- For a socket that the manager does not hold yet, and whatever the other handlers meanwhile
    -- call for other sockets, the route leaves every owner's connections as these calls alone
    -- would, whether the socket is refused, fails or is served; and it serves a user only for a
    -- token that resolves to this user.
    pub document_status_ws-traceless :
        (token : Option Text)
        → All (Avoids ws) others
        → ((j : Text) → All (λ c. c ≢ ws) (connections m j))
        → let (ending, m') = document_status_ws C J is_uuid now token ws happens others m in
          ((j : Text) → connections m' j ≡ connections (run others m) j)
          × ((user : CurrentUser) (sent : List Json)
              → ending ≡ ok (served user sent)
              → (t : Text) × (token ≡ some t) × (resolve_user_from_token J is_uuid now t ≡ ok user))
    unfolding document_status_ws
    document_status_ws-traceless token avoid fresh = (
      left_as token,
      λ user sent h.
          let (t, e, resolved, told) = document_status_ws-served token user sent h in
          (t, e, resolved),
    )
      where
        left_as :
            (token : Option Text) (j : Text)
            → connections (document_status_ws C J is_uuid now token ws happens others m).1 j
              ≡ connections (run others m) j
        left_as none j = refl
        left_as (some []) j = refl
        left_as (some (c ∷ token)) j =
            route_of-traceless (resolve_user_from_token J is_uuid now (c ∷ token)) avoid fresh j
