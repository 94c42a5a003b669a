-- ===== src/AuditApi/Contract.antt =====
-- lib/api.ts: the check of an event, against a description of the contract by typed events.
use block_chain.Common.{◌<◌, String, Bool, true, ◌&&◌, some, ◌≡◌, ◌≢◌, ◌↔◌, refl, arith}
use block_chain.Js.{Value, string, number, object, integer, pos, own, Fields}
use block_chain.AuditApi.{
  status_text, projection_statuses, AuditEvent, prop, is_nonempty_text, is_positive_integer,
  is_nonnegative_integer, is_hex, includes, is_audit_event,
}
use block_chain.AuditApi.Checks.{
  IsHexText, le→leb, own-string, own-number, is_nonempty_text_iff, is_nonempty_text_sound,
  is_positive_integer_sound, is_nonnegative_integer_sound, is_hex_sound, is_hex_complete,
  includes_sound, includes_complete,
}

-- What the contract asks of an event beyond its types.
pub record IsWellFormed (e : AuditEvent) : Type 0 where
  pub event_id : e.event_id ≢ ""
  pub chain_id : 0 < e.chain_id
  pub contract_address : IsHexText e.contract_address 40
  pub transaction_hash : IsHexText e.transaction_hash 64
  pub event_name : e.event_name ≢ ""

-- The object carries the event; it may have other keys.
pub record Carries (fs : Fields) (e : AuditEvent) : Type 0 where
  pub event_id : own fs "event_id" ≡ some (string e.event_id)
  pub chain_id : own fs "chain_id" ≡ some (number (integer (pos e.chain_id)))
  pub contract_address : own fs "contract_address" ≡ some (string e.contract_address)
  pub transaction_hash : own fs "transaction_hash" ≡ some (string e.transaction_hash)
  pub log_index : own fs "log_index" ≡ some (number (integer (pos e.log_index)))
  pub block_number : own fs "block_number" ≡ some (number (integer (pos e.block_number)))
  pub event_name : own fs "event_name" ≡ some (string e.event_name)
  pub projection_status :
      own fs "projection_status" ≡ some (string (status_text e.projection_status))

abbrev pub Conforms : Value → AuditEvent → Type 0
Conforms v e = (fs : Fields) × (v ≡ object fs) × Carries fs e × IsWellFormed e

and₈-eq-true :
    (a b c d e f g h : Bool)
    → (true && a && b && c && d && e && f && g && h) ≡ true
    → (a ≡ true)
      × (b ≡ true)
      × (c ≡ true)
      × (d ≡ true)
      × (e ≡ true)
      × (f ≡ true)
      × (g ≡ true)
      × (h ≡ true)
and₈-eq-true a b c d e f g h k = ground arith

and₈_true :
    {a b c d e f g h : Bool}
    → a ≡ true
    → b ≡ true
    → c ≡ true
    → d ≡ true
    → e ≡ true
    → f ≡ true
    → g ≡ true
    → h ≡ true
    → (true && a && b && c && d && e && f && g && h) ≡ true
and₈_true p q r s t u v w = ground arith

pub is_audit_event_sound : (v : Value) → is_audit_event v ≡ true → (e : AuditEvent) × Conforms v e
unfolding is_audit_event
is_audit_event_sound (object fs) h =
    let (h₁, h₂, h₃, h₄, h₅, h₆, h₇, h₈) = and₈-eq-true _ _ _ _ _ _ _ _ h in
    let (id, id_eq, id_ne) = is_nonempty_text_sound _ h₁ in
    let (chain, chain_eq, chain_pos) = is_positive_integer_sound _ h₂ in
    let (address, address_eq, address_hex) = is_hex_sound _ 40 h₃ in
    let (hash, hash_eq, hash_hex) = is_hex_sound _ 64 h₄ in
    let (log, log_eq) = is_nonnegative_integer_sound _ h₅ in
    let (block, block_eq) = is_nonnegative_integer_sound _ h₆ in
    let (name, name_eq, name_ne) = is_nonempty_text_sound _ h₇ in
    let (status, status_eq) = includes_sound _ h₈ in
    (
      record {
        event_id = id;
        chain_id = chain;
        contract_address = address;
        transaction_hash = hash;
        log_index = log;
        block_number = block;
        event_name = name;
        projection_status = status;
      },
      (
        fs,
        refl,
        record {
          event_id = own-string _ _ id_eq;
          chain_id = own-number _ _ chain_eq;
          contract_address = own-string _ _ address_eq;
          transaction_hash = own-string _ _ hash_eq;
          log_index = own-number _ _ log_eq;
          block_number = own-number _ _ block_eq;
          event_name = own-string _ _ name_eq;
          projection_status = own-string _ _ status_eq;
        },
        record {
          event_id = id_ne;
          chain_id = chain_pos;
          contract_address = address_hex;
          transaction_hash = hash_hex;
          event_name = name_ne;
        },
      ),
    )
is_audit_event_sound _ h = cc

-- A test of a key's value, from what the object has under the key.
at_key :
    (test : Value → Bool) (fs : Fields) (key : String) {v : Value}
    → own fs key ≡ some v
    → test v ≡ true
    → test (prop (object fs) key) ≡ true
unfolding prop
at_key test fs key e h = rw e h

pub is_audit_event_complete : (v : Value) (e : AuditEvent) → Conforms v e → is_audit_event v ≡ true
unfolding is_audit_event
is_audit_event_complete v e (fs, same, c, w) = rw same (
    and₈_true
      (at_key is_nonempty_text fs _ c.event_id ((is_nonempty_text_iff e.event_id).1 w.event_id))
      (at_key is_positive_integer fs _ c.chain_id (le→leb w.chain_id))
      (at_key (λ v. is_hex v 40) fs _ c.contract_address (is_hex_complete _ 40 w.contract_address))
      (at_key (λ v. is_hex v 64) fs _ c.transaction_hash (is_hex_complete _ 64 w.transaction_hash))
      (at_key is_nonnegative_integer fs _ c.log_index refl)
      (at_key is_nonnegative_integer fs _ c.block_number refl)
      (at_key is_nonempty_text fs _ c.event_name
        ((is_nonempty_text_iff e.event_name).1 w.event_name))
      (at_key (includes projection_statuses) fs _ c.projection_status
        (includes_complete e.projection_status)))

-- A value passes the check exactly when it is an object that carries, under the eight keys of the
-- contract, an event with a nonempty id and name, a positive chain id, an address of "0x" and 40
-- hexadecimal digits and a transaction hash of "0x" and 64.
pub is_audit_event_iff : (v : Value) → (is_audit_event v ≡ true) ↔ ((e : AuditEvent) × Conforms v e)
is_audit_event_iff v = (is_audit_event_sound v, λ (e, c). is_audit_event_complete v e c)
