-- ===== src/Scitt/Identity.antt =====
-- crates/ans-verify/src/scitt/identity.rs: the agreement of a receipt and a status token. The JSON
-- decoder is the crate serde_json: it gives the leaf of the event, or fails.
use ans_sdk_rust.Prelude.{
  ◌≡◌, ◌↔◌, refl, Bool, true, false, not, Option, none, some, if◌then◌else◌, arith, inl, inr,
  Option-cases, ◌=t◌, =t_iff,
}
use ans_sdk_rust.Text.{Text, eq_ignore_ascii_case, to_lowercase}
use ans_sdk_rust.Error.{Result, ok, err, ScittError, invalid_receipt_identity, identity_binding}
use ans_sdk_rust.Types.AnsName
use ans_sdk_rust.Scitt.Token.{StatusTokenPayload}

pub record LeafIdentity : Type 0 where
  pub ans_name : Text
  pub ans_id : Option Text
  -- `agent.host`
  pub agent_host : Option Text

pub data ReceiptLeaf : Type 0 where
  -- `payload.producer.event`
  envelope : LeafIdentity → ReceiptLeaf
  event : LeafIdentity → ReceiptLeaf

abbrev pub identity_of : ReceiptLeaf → LeafIdentity
identity_of (envelope identity) = identity
identity_of (event identity) = identity

abbrev other_id : Option Text → Text → Bool
other_id none agent_id = false
other_id (some id) agent_id = not (id =t agent_id)

abbrev check_host : Option Text → Option Text → Result ScittError (Unit {0})
check_host none agent_host = ok tt
check_host (some expected) none = err invalid_receipt_identity
check_host (some expected) (some host) =
    if not (eq_ignore_ascii_case host expected) then err identity_binding else ok tt

abbrev bind_identity :
    LeafIdentity → StatusTokenPayload → Option Text → Result ScittError (Unit {0})
bind_identity identity status expected_host =
    if not (eq_ignore_ascii_case identity.ans_name (AnsName.to_string status.ans_name))
    then err identity_binding
    else if other_id identity.ans_id status.agent_id
    then err identity_binding
    else check_host expected_host identity.agent_host

abbrev bind_leaf :
    Option ReceiptLeaf → StatusTokenPayload → Option Text → Result ScittError (Unit {0})
bind_leaf none status expected_host = err invalid_receipt_identity
bind_leaf (some leaf) status expected_host = bind_identity (identity_of leaf) status expected_host

module _ (parse_leaf : Text → Option ReceiptLeaf) where
  unfoldable pub bind_receipt_to_status :
      Text → StatusTokenPayload → Option Text → Result ScittError (Unit {0})
  bind_receipt_to_status event_bytes status expected_host =
      bind_leaf (parse_leaf event_bytes) status expected_host

-- An identifier, where there is one, is the token's.
abbrev pub SameId : Option Text → Text → Type 0
SameId none agent_id = Unit
SameId (some id) agent_id = id ≡ agent_id

-- Where a host is expected, the event has it.
abbrev pub HasHost : Option Text → Option Text → Type 0
HasHost none agent_host = Unit
HasHost (some expected) none = ⊥
HasHost (some expected) (some host) = to_lowercase host ≡ to_lowercase expected

pub record Bound (leaf : LeafIdentity) (status : StatusTokenPayload) (expected_host : Option Text)
    : Type 0 where
  pub name : to_lowercase leaf.ans_name ≡ to_lowercase (AnsName.to_string status.ans_name)
  pub id : SameId leaf.ans_id status.agent_id
  pub host : HasHost expected_host leaf.agent_host

other_id_iff :
    (id : Option Text) (agent_id : Text) → (other_id id agent_id ≡ false) ↔ SameId id agent_id
other_id_iff none agent_id = ((λ _. tt), λ _. refl)
other_id_iff (some id) agent_id = ground (arith, =t_iff id agent_id)

check_host_iff :
    (expected agent_host : Option Text)
    → (check_host expected agent_host ≡ ok tt) ↔ HasHost expected agent_host
unfolding eq_ignore_ascii_case
check_host_iff none agent_host = ((λ _. tt), λ _. refl)
check_host_iff (some expected) none = ground arith
check_host_iff (some expected) (some host) =
    ground (arith, =t_iff (to_lowercase host) (to_lowercase expected))

bind_identity_iff :
    (leaf : LeafIdentity) (status : StatusTokenPayload) (expected_host : Option Text)
    → (bind_identity leaf status expected_host ≡ ok tt) ↔ Bound leaf status expected_host
unfolding eq_ignore_ascii_case
bind_identity_iff leaf status expected_host =
    let token_name = AnsName.to_string status.ans_name in
    let named = =t_iff (to_lowercase leaf.ans_name) (to_lowercase token_name) in
    let (same_id, id_same) = other_id_iff leaf.ans_id status.agent_id in
    let (host_ok, ok_host) = check_host_iff expected_host leaf.agent_host in
    (
      λ e.
          let name : eq_ignore_ascii_case leaf.ans_name token_name ≡ true = ground arith in
          let id : other_id leaf.ans_id status.agent_id ≡ false = ground (arith, name) in
          record { name = named.0 name; id = same_id id; host = host_ok (rw (name, id) at e) },
      λ h. rw (named.1 h.name, id_same h.id) (ok_host h.host),
    )

-- A receipt binds to a status token exactly when its event can be read and names the token's ANS
-- name, without regard to case, names no other agent identifier than the token's, and, where a
-- host is expected, is for that host.
pub bind_receipt_to_status_iff :
    (parse_leaf : Text → Option ReceiptLeaf) (event_bytes : Text) (status : StatusTokenPayload)
    (expected_host : Option Text)
    → (bind_receipt_to_status parse_leaf event_bytes status expected_host ≡ ok tt) ↔ (
        (leaf : ReceiptLeaf) × ((parse_leaf event_bytes ≡ some leaf)
          × Bound (identity_of leaf) status expected_host))
unfolding bind_receipt_to_status
bind_receipt_to_status_iff parse_leaf event_bytes status expected_host =
    elim (Option-cases (parse_leaf event_bytes)) [
      | inl unread ↦ (
        λ e. absurd (cc (rw (unread, bind_receipt_to_status) at e)),
        λ (leaf, (read, bound)). absurd (cc (unread, read)),
      )
      | inr (leaf, read) ↦
          let (sound, complete) = bind_identity_iff (identity_of leaf) status expected_host in
          (
            λ e. (leaf, (read, sound (rw (read, bind_receipt_to_status) at e))),
            λ (other, (read', bound)).
                let same : other ≡ leaf = ground arith in
                rw (read, bind_receipt_to_status) (complete (rw same at bound)),
          )
    ]
