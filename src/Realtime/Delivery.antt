-- ===== src/Realtime/Delivery.antt =====
-- To whom the dispatcher sends.
use project_dipstick.Base.{
  ℕ, true, false, ◌≡◌, refl, sym, ap, ◌⊎◌, inl, inr, some, List, [], ◌∷◌, arith, ◌||◌, Bool-cases,
  Option-cases,
}
use mathlib.Core.List.{Memᴰ}
use project_dipstick.Realtime.Dispatch.{
  Envelope, Message, session_of, may_receive, message_for, skips, deliver, deliver_all, dispatch,
  is_current,
}
use project_dipstick.Realtime.Registry.{
  Scope, Connection, ConnectionSet, Hub, candidates, safe_send, deregister,
  is_past_absolute_lifetime,
}
use project_dipstick.Sessions.Access.{Grant, subscriber_access}
use project_dipstick.Sessions.Store.{Store}

-- What holds of a connection to which `message` is sent for an event.
pub record IsEntitled (now : ℕ) (e : Envelope) (s : Store) (c : Connection) (message : Message)
    : Type 0 where
  pub grant : Grant
  pub granted : subscriber_access c.user_id (session_of e) s ≡ some grant
  pub allowed : may_receive e grant ≡ true
  pub in_time : is_past_absolute_lifetime now c ≡ false
  pub not_skipped : skips e c ≡ false
  pub is_message : message ≡ message_for e grant

-- Everything sent is from before, or went to an entitled candidate.
abbrev pub SentTo :
    ℕ → Envelope → Store → ConnectionSet → List (ℕ × Message) → List (ℕ × Message) → Type 0
SentTo now e s cs old new =
    (k : ℕ) (m : Message)
    → Memᴰ (k, m) new
    → Memᴰ (k, m) old ⊎ ((c : Connection) × Memᴰ c cs × (c.id ≡ k) × IsEntitled now e s c m)

deregister-sent :
    (scope : Scope) (id c : ℕ) (h : Hub Message) → (deregister scope id c h).sent ≡ h.sent
unfolding deregister
deregister-sent Scope.session id c h = ground arith
deregister-sent Scope.team id c h = ground arith

safe_send-sent :
    (scope : Scope) (id : ℕ) (c : Connection) (m : Message) (h : Hub Message)
    → ((safe_send scope id c m h).0.sent ≡ h.sent)
      ⊎ ((safe_send scope id c m h).0.sent ≡ (c.id, m) ∷ h.sent)
unfolding safe_send
safe_send-sent scope id c m h = ground (arith, deregister-sent scope id c.id h)

-- A connection that is entitled is sent to; `send` is then safe_send's affair.
deliver-entitled :
    (now : ℕ) (e : Envelope) (s : Store) (c : Connection) (h : Hub Message) (m : Message)
    → IsEntitled now e s c m
    → deliver now e s c h ≡ (safe_send Scope.session (session_of e) c m h).0
unfolding deliver
deliver-entitled now e s c h m i =
    ground (arith, i.granted, i.allowed, i.in_time, i.not_skipped, i.is_message)

module _ (now : ℕ) (e : Envelope) (s : Store) (c : Connection) (h : Hub Message) where
  -- Either nothing happens, or the connection is entitled to a message.
  deliver-cases : (deliver now e s c h ≡ h) ⊎ ((m : Message) × IsEntitled now e s c m)
  unfolding deliver
  deliver-cases = elim (Option-cases (subscriber_access c.user_id (session_of e) s)) [
    | inl missing ↦ inl (ground arith)
    | inr (g, granted) ↦ elim (Bool-cases (may_receive e g)) [
      | inr forbidden ↦ inl (ground arith)
      | inl allowed ↦ elim (Bool-cases (skips e c || is_past_absolute_lifetime now c)) [
        | inl late ↦ inl (ground arith)
        | inr in_time ↦ inr (
          message_for e g,
          record {
            grant = g;
            granted = granted;
            allowed = allowed;
            in_time = ground arith;
            not_skipped = ground arith;
            is_message = refl;
          },
        )
      ]
    ]
  ]

  deliver-SentTo : SentTo now e s (c ∷ []) h.sent (deliver now e s c h).sent
  deliver-SentTo k m new = elim deliver-cases [
    | inl same ↦ inl (rw same at new)
    | inr (msg, i) ↦
        let sends = deliver-entitled now e s c h msg i in
        elim (safe_send-sent Scope.session (session_of e) c msg h) [
          | inl same ↦ inl (rw same at (rw sends at new))
          | inr one ↦ elim (rw one at (rw sends at new)) [
            | Memᴰ.head is_new ↦ inr (
              c,
              Memᴰ.head refl,
              ap (λ (p : ℕ × Message). p.0) (sym is_new),
              rw (ap (λ (p : ℕ × Message). p.1) is_new) i,
            )
            | Memᴰ.tail old ↦ inl old
          ]
        ]
  ]

deliver_all-SentTo :
    (now : ℕ) (e : Envelope) (s : Store) (cs : ConnectionSet) (h : Hub Message)
    → SentTo now e s cs h.sent (deliver_all now e s cs h).sent
unfolding deliver_all
deliver_all-SentTo now e s [] h k m new = inl new
deliver_all-SentTo now e s (c ∷ cs) h k m new =
    elim (deliver_all-SentTo now e s cs (deliver now e s c h) k m new) [
      | inr (d, later, same, i) ↦ inr (d, Memᴰ.tail later, same, i)
      | inl earlier ↦ elim (deliver-SentTo now e s c h k m earlier) [
        | inl old ↦ inl old
        | inr (d, Memᴰ.head here, same, i) ↦ inr (d, Memᴰ.head here, same, i)
        | inr (d, Memᴰ.tail none_left, same, i) ↦ elim none_left [ ]
      ]
    ]

-- Every message that a dispatch adds went to a candidate registered under the event's session,
-- whose access, read at the delivery, allows the event, and whose connection is not past its
-- absolute lifetime; the payload is the one for that grant.
pub dispatch-sent :
    (now : ℕ) (e : Envelope) (s : Store) (h : Hub Message) (k : ℕ) (m : Message)
    → Memᴰ (k, m) (dispatch now e s h).sent
    → Memᴰ (k, m) h.sent
      ⊎ ((c : Connection) × Memᴰ c (candidates Scope.session (session_of e) h)
          × (c.id ≡ k)
          × IsEntitled now e s c m)
unfolding dispatch
dispatch-sent now e s h k m new = elim (Bool-cases (is_current e s)) [
  | inl current ↦
      deliver_all-SentTo now e s (candidates Scope.session (session_of e) h) h k m
        (rw (current, dispatch) at new)
  | inr stale ↦ inl (rw (stale, dispatch) at new)
]

-- The socket of a connection is open and takes what is sent.
abbrev pub IsReachable : Connection → Hub Message → Type 0
IsReachable c h = (h.ready_state c.id ≡ 1) × (h.send_throws c.id ≡ false)

deregister-sockets :
    (scope : Scope) (id c : ℕ) (h : Hub Message)
    → ((deregister scope id c h).ready_state ≡ h.ready_state)
      × ((deregister scope id c h).send_throws ≡ h.send_throws)
unfolding deregister
deregister-sockets Scope.session id c h = (ground arith, ground arith)
deregister-sockets Scope.team id c h = (ground arith, ground arith)

module _ (now : ℕ) (e : Envelope) (s : Store) where
  deliver-sockets :
      (c : Connection) (h : Hub Message)
      → ((deliver now e s c h).ready_state ≡ h.ready_state)
        × ((deliver now e s c h).send_throws ≡ h.send_throws)
  unfolding deliver safe_send
  deliver-sockets c h =
      let (ready, throws) = deregister-sockets Scope.session (session_of e) c.id h in
      (ground (arith, ready), ground (arith, throws))

  deliver-keeps :
      (c : Connection) (h : Hub Message) (x : ℕ × Message)
      → Memᴰ x h.sent
      → Memᴰ x (deliver now e s c h).sent
  deliver-keeps c h x old = elim (deliver-cases now e s c h) [
    | inl same ↦ rw same old
    | inr (m, i) ↦
        rw (deliver-entitled now e s c h m i)
          (elim (safe_send-sent Scope.session (session_of e) c m h) [
            | inl same ↦ rw same old
            | inr one ↦ rw one (Memᴰ.tail old)
          ])
  ]

  deliver_all-keeps :
      (cs : ConnectionSet) (h : Hub Message) (x : ℕ × Message)
      → Memᴰ x h.sent
      → Memᴰ x (deliver_all now e s cs h).sent
  unfolding deliver_all
  deliver_all-keeps [] h x old = old
  deliver_all-keeps (c ∷ cs) h x old =
      deliver_all-keeps cs (deliver now e s c h) x (deliver-keeps c h x old)

  safe_send_reached :
      (c : Connection) (h : Hub Message) (m : Message)
      → IsReachable c h
      → (safe_send Scope.session (session_of e) c m h).0.sent ≡ (c.id, m) ∷ h.sent
  unfolding safe_send
  safe_send_reached c h m r = ground arith

  deliver_all-reaches :
      (cs : ConnectionSet) (h : Hub Message) (c : Connection) (m : Message)
      → Memᴰ c cs
      → IsReachable c h
      → IsEntitled now e s c m
      → Memᴰ (c.id, m) (deliver_all now e s cs h).sent
  unfolding deliver_all
  deliver_all-reaches [] h c m none_left r i = elim none_left [ ]
  deliver_all-reaches (d ∷ cs) h c m (Memᴰ.head same) r i =
      deliver_all-keeps cs (deliver now e s d h) (c.id, m)
        (rw (← same, deliver-entitled now e s c h m i, safe_send_reached c h m r) (Memᴰ.head refl))
  deliver_all-reaches (d ∷ cs) h c m (Memᴰ.tail more) r i =
      let (ready, throws) = deliver-sockets d h in
      deliver_all-reaches cs (deliver now e s d h) c m more
        (ground (arith, ready), ground (arith, throws)) i

  -- A dispatch of a current event sends it to every candidate that is entitled to it and whose
  -- socket is open.
  pub dispatch-reaches :
      (h : Hub Message) (c : Connection) (m : Message)
      → is_current e s ≡ true
      → Memᴰ c (candidates Scope.session (session_of e) h)
      → IsReachable c h
      → IsEntitled now e s c m
      → Memᴰ (c.id, m) (dispatch now e s h).sent
  unfolding dispatch
  dispatch-reaches h c m current held r i =
      rw (current, dispatch)
        (deliver_all-reaches (candidates Scope.session (session_of e) h) h c m held r i)
