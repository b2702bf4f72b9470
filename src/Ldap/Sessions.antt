-- ===== src/Ldap/Sessions.antt =====
-- Who may search: a connection whose last bind was a user's that is enabled and may search.
use infrastructure_in_a_box.Prelude.{
  ℕ, ◌≡◌, ◌⊎◌, ◌≤◌, refl, ◌∙◌, ap, subst, inl, inr, Bool, true, false, ◌&&◌, ◌||◌, not, List, [],
  ◌∷◌, Option, none, some, arith, In, Bool-cases, if-elim, length, leb, ltb, ◌==◌,
}
use infrastructure_in_a_box.Prelude.Text.{Text}
use infrastructure_in_a_box.Ldap.Packet.{
  Code, Packet, Packets, Envelope, nil, cons, tag_of, text_of, kind_of, class_of, children,
  is_primitive, is_octet_string, is_context, natural, tag_integer, request_envelope, is_success,
  validate_controls,
}
use infrastructure_in_a_box.Ldap.Directory.{Names}
use infrastructure_in_a_box.Ldap.Search.{Directory, search}
use infrastructure_in_a_box.Ldap.Session.{
  User, is_password, Slot, ended, taken, free, check_password, check_slot, check_bind,
  is_version_three, go_on, is_search, is_refused, reset, is_closed, bind_arguments, bind,
  Connection, Message, is_bind, serve_operation, serve_envelope, serve_message, new_connection,
  max_bind_attempts,
}

module _ {Dn : Type 0} (names : Names Dn) (directory : Directory Dn) (users : List (User Dn)) where
  -- A user that may search, under the name, with the password.
  pub record IsEntitled (name password : Text) : Type 0 where
    pub dn : Dn
    pub parsed : names.parse_dn name ≡ some dn
    pub user : User Dn
    pub listed : In user users
    pub same : names.same_dn user.dn dn ≡ true
    pub enabled : user.disabled ≡ false
    pub may_search : user.can_search ≡ true
    pub proven : is_password user password ≡ true
    pub named : length password ≤ 1024

  -- The operation is a simple bind of version three, as RFC 4511 lays it out, whose name and
  -- password are such a user's.
  pub record IsUserBind (op : Packet) : Type 0 where
    pub version : Packet
    pub name : Packet
    pub auth : Packet
    pub arguments : children op ≡ cons version (cons name (cons auth nil))
    pub third : natural tag_integer version ≡ some 3
    pub simple : tag_of auth ≡ 0
    pub entitled : IsEntitled (text_of name) (text_of auth)

  -- The message is such a bind.
  pub record IsGrant (m : Message) : Type 0 where
    pub envelope : Envelope
    pub read : request_envelope m.packet ≡ some envelope
    pub binds : tag_of envelope.op ≡ 0
    pub user_bind : IsUserBind envelope.op

  abbrev binds_in : Option Envelope → Bool
  binds_in none = false
  binds_in (some envelope) = is_bind envelope.op

  -- The last bind of a history, latest message first, was such a one.
  abbrev pub IsGranted : List Message → Type 0
  IsGranted [] = ⊥
  IsGranted (m ∷ ms) = IsGrant m ⊎ ((binds_in (request_envelope m.packet) ≡ false) × IsGranted ms)

  -- The messages that a connection has served, latest first.
  pub data History : List Message → Connection → Type 0 where
    opened : History [] new_connection
    served :
        {ms : List Message} {c d : Connection} (m : Message)
        → History ms c
        → serve_message names directory users c m ≡ some d
        → History (m ∷ ms) d

  check_password-true :
      (dn : Dn) (password : Text) (candidates : List (User Dn))
      → (check_password names dn password candidates).1 ≡ true
      → (user : User Dn) × In user candidates
        × (names.same_dn user.dn dn ≡ true)
        × (user.disabled ≡ false)
        × (user.can_search ≡ true)
        × (is_password user password ≡ true)
  unfolding check_password
  check_password-true dn password [] e = cc
  check_password-true dn password (user ∷ candidates) e =
      elim (Bool-cases (not (names.same_dn user.dn dn) || user.disabled)) [
        | inl other ↦
            let (found, i, same, enabled, may, good) =
              check_password-true dn password candidates (ground arith) in
            (found, inr i, same, enabled, may, good)
        | inr meant ↦ elim (Bool-cases (is_password user password)) [
          | inl good ↦ (user, inl refl, ground arith, ground arith, ground arith, good)
          | inr bad ↦ absurd (ground arith)
        ]
      ]

  -- An answer to a bind that lets the connection search is a user's that may.
  abbrev Allows : Type 0 → Code × Bool → Type 0
  Allows P r = r.1 ≡ true → P

  check_slot-IsEntitled :
      (slot : Slot) (name password : Text) (m : Option Dn)
      → names.parse_dn name ≡ m
      → length password ≤ 1024
      → Allows (IsEntitled name password) (check_slot names users slot password m)
  check_slot-IsEntitled slot name password none parsed short e = cc
  check_slot-IsEntitled ended name password (some dn) parsed short e = cc
  check_slot-IsEntitled taken name password (some dn) parsed short e = cc
  check_slot-IsEntitled free name password (some dn) parsed short e =
      let (user, i, same, enabled, may, good) = check_password-true dn password users e in
      record {
        dn = dn;
        parsed = parsed;
        user = user;
        listed = i;
        same = same;
        enabled = enabled;
        may_search = may;
        proven = good;
        named = short;
      }

  check_bind-IsEntitled :
      (slot : Slot) (name password : Text)
      → Allows (IsEntitled name password) (check_bind names users slot name password)
  unfolding check_bind
  check_bind-IsEntitled slot name password =
      if-elim (Allows (IsEntitled name password)) (length name == 0 && length password == 0) _ _
        (λ q e. cc)
        (λ q.
          if-elim (Allows (IsEntitled name password))
            (length name == 0 || length password == 0 || ltb 1024 (length password)) _ _ (λ r e. cc)
            (λ r.
              check_slot-IsEntitled slot name password (names.parse_dn name) refl (ground arith)))

  version_three-some :
      (n : Option ℕ) (b : Bool) → (not (is_version_three n) || b) ≡ false → n ≡ some 3
  version_three-some none b e = cc
  version_three-some (some n) b e = ground arith

  bind_arguments-IsUserBind :
      (slot : Slot) (op : Packet) (ps : Packets)
      → children op ≡ ps
      → Allows (IsUserBind op) (bind_arguments names users slot ps)
  bind_arguments-IsUserBind slot op nil q = λ e. cc
  bind_arguments-IsUserBind slot op (cons version nil) q = λ e. cc
  bind_arguments-IsUserBind slot op (cons version (cons name nil)) q = λ e. cc
  bind_arguments-IsUserBind slot op (cons version (cons name (cons auth nil))) q =
      if-elim (Allows (IsUserBind op))
        (not (is_version_three (natural tag_integer version)) || not (is_octet_string name)) _ _
        (λ bad e. cc)
        (λ good.
          if-elim (Allows (IsUserBind op))
            (not (is_context (class_of auth))
              || not (is_primitive (kind_of auth))
              || not (tag_of auth == 0))
            _ _ (λ other e. cc)
            (λ plain e. record {
              version = version;
              name = name;
              auth = auth;
              arguments = q;
              third = version_three-some (natural tag_integer version) _ good;
              simple = ground arith;
              entitled = check_bind-IsEntitled slot (text_of name) (text_of auth) e;
            }))
  bind_arguments-IsUserBind slot op (cons version (cons name (cons auth (cons more ps)))) q =
      λ e. cc

  bind-IsUserBind : (slot : Slot) (op : Packet) → Allows (IsUserBind op) (bind names users slot op)
  unfolding bind
  bind-IsUserBind slot op =
      if-elim (Allows (IsUserBind op)) (is_primitive (kind_of op)) _ _ (λ q e. cc)
        (λ q. bind_arguments-IsUserBind slot op (children op) refl)

  -- What a round may do to a connection.
  abbrev IsFair : Message → Connection → Option Connection → Type 0
  IsFair m c none = Unit {0}
  IsFair m c (some d) =
      (d.can_search ≡ true
        → IsGrant m ⊎ ((binds_in (request_envelope m.packet) ≡ false) × (c.can_search ≡ true)))
      × (c.attempts ≤ max_bind_attempts → d.attempts ≤ max_bind_attempts)

  go_on-IsFair :
      (m : Message) (c d : Connection) (b : Bool) → IsFair m c (some d) → IsFair m c (go_on b d)
  go_on-IsFair m c d true h = h
  go_on-IsFair m c d false h = tt

  -- A message that is no bind leaves the connection as it is.
  idle-IsFair :
      (m : Message) (c : Connection) (envelope : Envelope)
      → request_envelope m.packet ≡ some envelope
      → is_bind envelope.op ≡ false
      → IsFair m c (some c)
  idle-IsFair m c envelope read other = (λ e. inr (ap binds_in read ∙ other, e), λ h. h)

  reset-IsFair :
      (m : Message) (c : Connection) (envelope : Envelope)
      → request_envelope m.packet ≡ some envelope
      → IsFair m c (some (reset envelope.op c))
  reset-IsFair m c envelope read = elim (Bool-cases (is_bind envelope.op)) [
    | inl binds ↦ rw binds (λ e. cc, λ h. h)
    | inr other ↦ rw other (idle-IsFair m c envelope read other)
  ]

  serve_operation-IsFair :
      (m : Message) (c : Connection) (envelope : Envelope)
      → request_envelope m.packet ≡ some envelope
      → IsFair m c (serve_operation names directory users m envelope.op (reset envelope.op c))
  unfolding serve_operation
  serve_operation-IsFair m c envelope read =
      if-elim (IsFair m c) (is_bind envelope.op) _ _
        (λ binds.
          if-elim (IsFair m c) (leb max_bind_attempts (reset envelope.op c).attempts) _ _ (λ q. tt)
            (λ few. go_on-IsFair m c _ m.is_written (
              (λ e. inl (record {
                envelope = envelope;
                read = read;
                binds = ground arith;
                user_bind = bind-IsUserBind m.slot envelope.op e;
              })),
              λ h. ground arith,
            )))
        (λ other.
          if-elim (IsFair m c) (is_search envelope.op) _ _
            (λ q.
              if-elim (IsFair m c)
                (is_closed
                  (search names directory m.clock (reset envelope.op c).can_search
                    envelope.op).ending)
                none (go_on m.is_written (reset envelope.op c)) (λ r. tt)
                (λ r. go_on-IsFair m c _ m.is_written (reset-IsFair m c envelope read)))
            (λ q. go_on-IsFair m c _ m.is_written (reset-IsFair m c envelope read)))

  serve_envelope-IsFair :
      (m : Message) (c : Connection) (found : Option Envelope)
      → request_envelope m.packet ≡ found
      → IsFair m c (serve_envelope names directory users m found c)
  serve_envelope-IsFair m c none read = tt
  serve_envelope-IsFair m c (some envelope) read =
      if-elim (IsFair m c) (tag_of envelope.op == 2) _ _ (λ q. tt)
        (λ q.
          if-elim (IsFair m c) (tag_of envelope.op == 16) _ _
            (λ abandon. idle-IsFair m c envelope read (ground arith))
            (λ r.
              if-elim (IsFair m c)
                (not (is_bind envelope.op || is_search envelope.op || is_refused envelope.op)) _ _
                (λ u. tt)
                (λ u.
                  if-elim (IsFair m c) (not (is_success (validate_controls envelope.controls))) _ _
                    (λ v. go_on-IsFair m c _ m.is_written (reset-IsFair m c envelope read))
                    (λ v. serve_operation-IsFair m c envelope read))))

  serve_message-IsFair :
      (m : Message) (c : Connection) → IsFair m c (serve_message names directory users c m)
  unfolding serve_message
  serve_message-IsFair m c = serve_envelope-IsFair m c (request_envelope m.packet) refl

  -- A connection that may search has had a simple bind of version three that carried the name of a
  -- user who is listed, enabled and allowed to search, and that user's password of at most 1024
  -- bytes, and no message behind that bind was a bind, well-formed or not; and it has made at most
  -- 20 attempts.
  pub session-IsGranted :
      {ms : List Message} {c : Connection}
      → History ms c
      → (c.can_search ≡ true → IsGranted ms) × (c.attempts ≤ max_bind_attempts)
  session-IsGranted opened = (λ e. cc, omega arith)
  session-IsGranted (served {ms} {c} m past e) =
      let (may, tries) = session-IsGranted past in
      let (now, later) = subst (IsFair m c) e (serve_message-IsFair m c) in
      (
        λ may_search. elim (now may_search) [
          | inl grant ↦ inl grant
          | inr (other, before) ↦ inr (other, may before)
        ],
        later tries,
      )
