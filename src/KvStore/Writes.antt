-- ===== src/KvStore/Writes.antt =====
-- Optimistic writes: what `put`, `create` and `delete` answer, and what they leave in the bucket.
use nauts.Base.{ℕ, ◌≡◌, ap, ◌∙◌, true, false, Option, some, nat_eq}
use nauts.Base.Text.{Text, codes, includes}
use nauts.Thrown.{error, conflict, ok, throw, Exec, message_of, attempt, raise}
use nauts.Thrown.Laws.{then-ok, attempt-ok, attempt-throw}
use nauts.KvStore
use nauts.KvStore.{rethrow, write}
use nauts.KvStore.Client.{put, del, RawEntry, KvClient, Codec}
use nauts.KvStore.Bucket.{revision_of, is_live, Refused, Written, IsBucket}

rethrow_refusal :
    (key m : Text)
    → includes m (codes "wrong last sequence") ≡ true
    → rethrow key (error m) ≡ conflict key
unfolding rethrow message_of
rethrow_refusal key m h = rw h

module _ {D S : Type 0} (kv : KvClient D S) (current : S → Text → Option (RawEntry D))
    (bucket : IsBucket kv current) where
  module _ {A : Type 0} (key : Text) (call : Exec S A) (s : S) where
    write-ok : (a : A) (t : S) → call s ≡ (ok a, t) → write kv key call s ≡ (ok a, t)
    unfolding write
    write-ok a t h =
        then-ok kv.get_kv_bucket (attempt call (λ err. raise (rethrow key err))) (bucket.opens s)
        ∙ attempt-ok call (λ err. raise (rethrow key err)) h

    write-Refused :
        Refused kv current A s (call s) → write kv key call s ≡ (throw (conflict key), s)
    unfolding write
    write-Refused refused =
        then-ok kv.get_kv_bucket (attempt call (λ err. raise (rethrow key err))) (bucket.opens s)
        ∙ attempt-throw call (λ err. raise (rethrow key err)) refused.answered
        ∙ ap (λ e. (throw e, s)) (rethrow_refusal key refused.message refused.wrong_sequence)

  pub delete_conflict :
      (s : S) (key : Text) (r : ℕ)
      → nat_eq (revision_of (current s key)) r ≡ false
      → KvStore.delete kv key r s ≡ (throw (conflict key), s)
  unfolding KvStore.delete
  delete_conflict s key r h = write-Refused key (kv.delete key r) s (bucket.delete_stale s key r h)

  pub delete_made :
      (s : S) (key : Text) (r : ℕ)
      → nat_eq (revision_of (current s key)) r ≡ true
      → (t : S) × (n : ℕ) × (mark : D) × (KvStore.delete kv key r s ≡ (ok tt, t))
        × Written kv current s key mark del t n
  delete_made s key r h =
      let (t, n, mark, e, w) = bucket.delete_fresh s key r h in
      (t, n, mark, unfold KvStore.delete in write-ok key (kv.delete key r) s tt t e, w)

  module _ {V : Type 0} (json : Codec V D) where
    pub put_conflict :
        (s : S) (key : Text) (v : V) (r : ℕ)
        → nat_eq (revision_of (current s key)) r ≡ false
        → KvStore.put json kv key v (some r) s ≡ (throw (conflict key), s)
    unfolding KvStore.put
    put_conflict s key v r h =
        write-Refused key (kv.put key (json.encode v) (some r)) s
          (bucket.put_stale s key (json.encode v) r h)

    pub put_renewed :
        (s : S) (key : Text) (v : V) (r : ℕ)
        → nat_eq (revision_of (current s key)) r ≡ true
        → (t : S) × (n : ℕ) × (KvStore.put json kv key v (some r) s ≡ (ok n, t))
          × Written kv current s key (json.encode v) put t n
          × (nat_eq n r ≡ false)
    put_renewed s key v r h =
        let (t, n, e, w, renewed) = bucket.put_fresh s key (json.encode v) r h in
        (
          t,
          n,
          unfold KvStore.put in write-ok key (kv.put key (json.encode v) (some r)) s n t e,
          w,
          renewed,
        )

    pub put_made :
        (s : S) (key : Text) (v : V) (r : ℕ)
        → nat_eq (revision_of (current s key)) r ≡ true
        → (t : S) × (n : ℕ) × (KvStore.put json kv key v (some r) s ≡ (ok n, t))
          × Written kv current s key (json.encode v) put t n
    put_made s key v r h = let (t, n, e, w, renewed) = put_renewed s key v r h in (t, n, e, w)

    pub create_made :
        (s : S) (key : Text) (v : V)
        → is_live (current s key) ≡ false
        → (t : S) × (n : ℕ) × (KvStore.create json kv key v s ≡ (ok n, t))
          × Written kv current s key (json.encode v) put t n
    create_made s key v h =
        let (t, n, e, w) = bucket.create_free s key (json.encode v) h in
        (t, n, unfold KvStore.create in write-ok key (kv.create key (json.encode v)) s n t e, w)

    pub create_conflict :
        (s : S) (key : Text) (v : V)
        → is_live (current s key) ≡ true
        → KvStore.create json kv key v s ≡ (throw (conflict key), s)
    unfolding KvStore.create
    create_conflict s key v h =
        write-Refused key (kv.create key (json.encode v)) s
          (bucket.create_taken s key (json.encode v) h)
