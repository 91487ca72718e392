-- ===== src/Credentials/Vault/Revocation.antt =====
-- Lemmas and theorems on revoked credentials (services/collector/credentials/src/vault.rs).
use linvesther.Prelude.{
  ℕ, ◌≡◌, ◌⊎◌, inl, inr, refl, sym, ◌∙◌, ap, subst, List, [], ◌∷◌, some, true, ok, err, Bool-cases,
}
use linvesther.Prelude.Bytes.{Bytes, bytes_eq, bytes_eq→eq}
use linvesther.Prelude.Maps.{
  get, insert, bytes_keys, get-insert_same, get-insert_other, get-contains_key,
}
use linvesther.Credentials.{Aead}
use linvesther.Credentials.Kms.{Kms}
use linvesther.Credentials.Vault.{
  not_found, revoked, CredentialRecord, EnvelopeJson, Records, is_revoked, retrieve, mark_revoked,
  revoke, mark_purged,
}
use linvesther.Credentials.Vault.Requests.{
  Request, or_keep, answer_to, run_requests, Writes, stored, marked_revoked, marked_purged,
  revoke-Writes, answer_to-Writes,
}

module _ (kms : Kms) (aead : Aead) (json : EnvelopeJson) where
  -- A record that is there and is revoked.
  pub record IsLocked (records : Records) (id : Bytes) : Type 0 where
    pub locked : CredentialRecord
    pub locked_of : get id records ≡ some locked
    pub is_locked : is_revoked locked ≡ true

  Writes-IsLocked :
      (records : Records) (at_id id : Bytes) (r : CredentialRecord)
      → Writes kms aead json records at_id r
      → IsLocked records id
      → IsLocked (insert at_id r records) id
  unfolding mark_purged is_revoked
  Writes-IsLocked records at_id id r writes lock = elim (Bool-cases (bytes_eq at_id id)) [
    | inr other ↦ record {
      locked = lock.locked;
      locked_of = get-insert_other at_id id r records other ∙ lock.locked_of;
      is_locked = lock.is_locked;
    }
    | inl here ↦
        let same = bytes_eq→eq at_id id here in
        record {
          locked = r;
          locked_of =
              subst (λ k. get k (insert at_id r records) ≡ some r) same
                (get-insert_same at_id r records);
          is_locked = kept r (subst (λ k. Writes kms aead json records k r) same writes);
        }
  ]
    where
      kept : (r : CredentialRecord) → Writes kms aead json records id r → is_revoked r ≡ true
      kept r (stored s fresh x y z) = let f = get-contains_key id records lock.locked_of in cc
      kept r (marked_revoked s now got open_) =
          let same : s ≡ lock.locked = cc in let f = ap is_revoked same ∙ lock.is_locked in cc
      kept r (marked_purged s deadline now got due late) =
          let same : s ≡ lock.locked = cc in ap is_revoked same ∙ lock.is_locked

  run_requests-IsLocked :
      (records : Records) (id : Bytes) (requests : List Request)
      → IsLocked records id
      → IsLocked (run_requests kms aead json records requests) id
  run_requests-IsLocked records id [] lock = lock
  run_requests-IsLocked records id (request ∷ requests) lock =
      run_requests-IsLocked (or_keep records (answer_to kms aead json records request)) id requests
        (elim (answer_to-Writes kms aead json records request) [
          | inl same ↦ subst (λ m. IsLocked m id) (sym same) lock
          | inr (at_id, r, writes, made) ↦
              subst (λ m. IsLocked m id) (sym made) (Writes-IsLocked records at_id id r writes lock)
        ])

  IsLocked-retrieve :
      (records : Records) (id : Bytes)
      → IsLocked records id
      → (retrieve kms aead json records id ≡ err (revoked id))
        ⊎ (retrieve kms aead json records id ≡ err (not_found id))
  unfolding retrieve is_revoked
  IsLocked-retrieve records id lock = elim (Bool-cases lock.locked.purged) [
    | inl gone ↦ inr (rw (lock.locked_of, gone) refl)
    | inr there ↦ inl (rw (lock.locked_of, there, lock.is_locked) refl)
  ]

  revoke-IsLocked :
      (records : Records) (id : Bytes) (now : ℕ) {after : Records}
      → revoke records id now ≡ ok after
      → IsLocked after id
  unfolding mark_revoked is_revoked
  revoke-IsLocked records id now h =
      let (r, writes, made) = revoke-Writes kms aead json records id now h in
      record {
        locked = mark_revoked r now;
        locked_of = ap (λ m. get id m) made ∙ get-insert_same id (mark_revoked r now) records;
        is_locked = refl;
      }

  -- Once a credential was revoked, no sequence of further requests to the vault (to store, revoke or
  -- purge, under this or another id, at any times and in any order, refused or not) lets it be
  -- retrieved again: the answer stays that it was revoked, or is not found.
  pub revoke-retrieve :
      (records after : Records) (id : Bytes) (now_ms : ℕ) (requests : List Request)
      → revoke records id now_ms ≡ ok after
      → (retrieve kms aead json (run_requests kms aead json after requests) id ≡ err (revoked id))
        ⊎ (retrieve kms aead json (run_requests kms aead json after requests) id
            ≡ err (not_found id))
  revoke-retrieve records after id now_ms requests h =
      IsLocked-retrieve (run_requests kms aead json after requests) id
        (run_requests-IsLocked after id requests (revoke-IsLocked records id now_ms h))
