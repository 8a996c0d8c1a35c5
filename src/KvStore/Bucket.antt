-- ===== src/KvStore/Bucket.antt =====
-- What the store relies on of a bucket, as the client library documents it: reads give the last
-- entry of a key, a write that names a revision is made exactly if that is the last one, and under a
-- new one, and a refusal says "wrong last sequence". All calls but a write that is made leave the
-- bucket alone. Every key is taken for one that the client library accepts.
use nauts.Base.{ℕ, ◌≡◌, Bool, true, false, Option, none, some, nat_eq}
use nauts.Base.Text.{Text, codes, ◌==◌, includes}
use nauts.Thrown.{error, Outcome, ok, throw}
use nauts.KvStore.Client.{Operation, put, del, RawEntry, KvClient, is_put}

-- The revision of a key, which is 0 where it was never written.
abbrev pub revision_of : {D : Type 0} → Option (RawEntry D) → ℕ
revision_of none = 0
revision_of (some entry) = entry.revision

-- The key holds a value: it was written, and not deleted since.
abbrev pub is_live : {D : Type 0} → Option (RawEntry D) → Bool
is_live none = false
is_live (some entry) = is_put entry.operation

module _ {D S : Type 0} (kv : KvClient D S) (current : S → Text → Option (RawEntry D)) where
  -- The call is refused.
  pub record Refused (A : Type 0) (s : S) (answer : Outcome A × S) : Type 0 where
    pub message : Text
    pub answered : answer ≡ (throw (error message), s)
    pub wrong_sequence : includes message (codes "wrong last sequence") ≡ true

  -- The call writes the key and no other.
  pub record Written (s : S) (key : Text) (value : D) (operation : Operation) (t : S) (n : ℕ)
      : Type 0 where
    pub here :
        current t key
        ≡ some (record { key = key; value = value; operation = operation; revision = n })
    pub elsewhere : (j : Text) → (j == key) ≡ false → current t j ≡ current s j

  pub record IsBucket : Type 0 where
    pub opens : (s : S) → kv.get_kv_bucket s ≡ (ok tt, s)
    pub gets : (s : S) (key : Text) → kv.get key s ≡ (ok (current s key), s)
    pub put_stale :
        (s : S) (key : Text) (value : D) (r : ℕ)
        → nat_eq (revision_of (current s key)) r ≡ false
        → Refused ℕ s (kv.put key value (some r) s)
    pub put_fresh :
        (s : S) (key : Text) (value : D) (r : ℕ)
        → nat_eq (revision_of (current s key)) r ≡ true
        → (t : S) × (n : ℕ) × (kv.put key value (some r) s ≡ (ok n, t))
          × Written s key value put t n
          × (nat_eq n r ≡ false)
    pub create_taken :
        (s : S) (key : Text) (value : D)
        → is_live (current s key) ≡ true
        → Refused ℕ s (kv.create key value s)
    pub create_free :
        (s : S) (key : Text) (value : D)
        → is_live (current s key) ≡ false
        → (t : S) × (n : ℕ) × (kv.create key value s ≡ (ok n, t)) × Written s key value put t n
    pub delete_stale :
        (s : S) (key : Text) (r : ℕ)
        → nat_eq (revision_of (current s key)) r ≡ false
        → Refused Unit s (kv.delete key r s)
    pub delete_fresh :
        (s : S) (key : Text) (r : ℕ)
        → nat_eq (revision_of (current s key)) r ≡ true
        → (t : S) × (n : ℕ) × (mark : D) × (kv.delete key r s ≡ (ok tt, t))
          × Written s key mark del t n
