-- ===== src/BucketDialog/Import.antt =====
-- What an import reports.
use nauts.Base.{
  not, false, nat_eq, nat_eq_iff, if◌then◌else◌, ◌≢◌, sym, ap, ◌∙◌, ◌++◌, ℕ, suc, ◌+◌, ◌≡◌, refl,
  Option, none, some, [], ◌∷◌, length, arith,
}
use nauts.Base.Text.{Text, codes}
use nauts.Base.Decimal.{decimal}
use nauts.Base.Dict.{Dict}
use nauts.Thrown.{Outcome, ok, throw}
use nauts.KvStore
use nauts.KvStore.Client.{KvClient, Codec}
use nauts.BucketDialog.{BucketDialog, counted, import_entries, import_parsed, import_data, report}

module _ {V D B : Type 0} (json : Codec V D) (kv : KvClient D B) where
  abbrev pub failed : Outcome ℕ → ℕ
  failed (ok n) = 0
  failed (throw x) = 1

  -- How many of the writes, made one after the other, throw.
  abbrev pub failures : Dict V → B → ℕ
  failures [] b = 0
  failures ((key, value) ∷ es) b =
      failed (KvStore.put json kv key value none b).0
      + failures es (KvStore.put json kv key value none b).1

  -- Each entry is counted once.
  import_entries-total :
      (es : Dict V) (i e : ℕ) (b : B)
      → (import_entries json kv es (i, e) b).0.0 + (import_entries json kv es (i, e) b).0.1
        ≡ i + e + length es
  unfolding import_entries counted
  import_entries-total [] i e b = omega arith
  import_entries-total ((key, value) ∷ es) i e b =
      by (KvStore.put json kv key value none b).0 (KvStore.put json kv key value none b).1
        (λ i' e' c. import_entries-total es i' e' c)
    where
      by :
          (r : Outcome ℕ) (c : B)
          → ((i' e' : ℕ) (d : B)
              → (import_entries json kv es (i', e') d).0.0
                  + (import_entries json kv es (i', e') d).0.1
                ≡ i' + e' + length es)
          → (import_entries json kv es (counted json kv r (i, e)) c).0.0
              + (import_entries json kv es (counted json kv r (i, e)) c).0.1
            ≡ i + e + length ((key, value) ∷ es)
      by (ok n) c f = omega (arith, f (suc i) e c)
      by (throw x) c f = omega (arith, f i (suc e) c)

  import_entries-failures :
      (es : Dict V) (i e : ℕ) (b : B) → (import_entries json kv es (i, e) b).0.1 ≡ e + failures es b
  unfolding import_entries counted
  import_entries-failures [] i e b = omega arith
  import_entries-failures ((key, value) ∷ es) i e b =
      by (KvStore.put json kv key value none b).0 (KvStore.put json kv key value none b).1
        (λ i' e' c. import_entries-failures es i' e' c)
    where
      by :
          (r : Outcome ℕ) (c : B)
          → ((i' e' : ℕ) (d : B) → (import_entries json kv es (i', e') d).0.1 ≡ e' + failures es d)
          → (import_entries json kv es (counted json kv r (i, e)) c).0.1
            ≡ e + (failed r + failures es c)
      by (ok n) c f = omega (arith, f (suc i) e c)
      by (throw x) c f = omega (arith, f i (suc e) c)

  -- The report of counts, by whether there were errors.
  report_success :
      (i e : ℕ)
      → e ≡ 0
      → report json kv (i, e) ≡ codes "Successfully imported " ++ (decimal i ++ codes " entries")
  report_success i e h = rw h refl

  report_errors :
      (i e : ℕ)
      → e ≢ 0
      → report json kv (i, e)
        ≡ codes "Imported "
          ++ (decimal i ++ (codes " entries with " ++ (decimal e ++ codes " errors")))
  report_errors i e h =
      let q : nat_eq e 0 ≡ false = ground (arith, nat_eq_iff e 0) in
      ap
        (λ b.
          if not b
          then codes "Imported "
            ++ (decimal i ++ (codes " entries with " ++ (decimal e ++ codes " errors")))
          else codes "Successfully imported " ++ (decimal i ++ codes " entries"))
        q

  -- An import of an object whose writes all return says that as many entries as the object has were
  -- imported; one of which some writes throw says how many returned and how many threw.
  pub import_data-message :
      (parse : Text → Outcome (Option (Dict V))) (d : BucketDialog) (b : B) (es : Dict V)
      → parse d.json_text ≡ ok (some es)
      → (failures es b ≡ 0
          → (import_data json kv parse d b).0.message
            ≡ some (codes "Successfully imported " ++ (decimal (length es) ++ codes " entries")))
        × (failures es b ≢ 0
            → (i : ℕ) × (i + failures es b ≡ length es)
              × ((import_data json kv parse d b).0.message
                  ≡ some (
                      codes "Imported "
                      ++ (decimal i
                          ++ (codes " entries with "
                              ++ (decimal (failures es b) ++ codes " errors"))))))
  import_data-message parse d b es h =
      let m : (import_data json kv parse d b).0.message ≡ some (report json kv counts) =
        unfold import_data import_parsed in rw h refl in
      let q : counts.1 ≡ failures es b = omega (arith, import_entries-failures es 0 0 b) in
      let t : counts.0 + counts.1 ≡ length es = omega (arith, import_entries-total es 0 0 b) in
      (
        λ z.
            let k : counts.0 ≡ length es = omega arith in
            m
            ∙ ap some (
                report_success counts.0 counts.1 (q ∙ z)
                ∙ ap (λ n. codes "Successfully imported " ++ (decimal n ++ codes " entries")) k),
        λ z. (
          counts.0,
          omega arith,
          m
              ∙ ap some (
                  report_errors counts.0 counts.1 (λ y. z (sym q ∙ y))
                  ∙ ap
                      (λ n.
                        codes "Imported "
                        ++ (decimal counts.0
                            ++ (codes " entries with " ++ (decimal n ++ codes " errors"))))
                      q),
        ),
      )
    where
      counts : ℕ × ℕ
      counts = (import_entries json kv es (0, 0) b).0
