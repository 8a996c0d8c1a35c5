-- ===== src/NatsService/Overlap/Tracked.antt =====
-- What the interleaved calls of the connection keep of their state, part by part, and how each part
-- changes.
use nauts.Base.{
  Bool, true, false, [], ◌≡◌, refl, sym, subst, ap, ◌∙◌, Option, none, some, some-injective, List,
  ◌∷◌, ◌⊎◌, inl, inr, In,
}
use nauts.Thrown.{Outcome, ok, throw}
use nauts.NatsService.{ConnectParams, Connection, KvBucket, target}
use nauts.NatsService.Overlap.{
  Call, dialing, settled, Shared, logged, drop_connection, Takes, first, behind,
}

-- At most one call of `connect` waits, and the promise is set exactly while one does. While the
-- client library is asked to connect there is no connection; until the caller has gone on, the
-- parameters are those that it asked for.
abbrev pub Asked : Bool → List Call → Option Connection → Option ConnectParams → Type 0
Asked b [] c params = b ≡ false
Asked b (dialing p ∷ []) c params = (b ≡ true) × (c ≡ none) × (params ≡ some p)
Asked b (settled p r ∷ []) c params = (b ≡ true) × (params ≡ some p)
Asked b (a ∷ (k ∷ ks)) c params = ⊥

-- Each connection that was made is the one at hand or was dropped, and the one at hand was made.
pub record Tracked (c : Option Connection) (made dropped : List Connection) : Type 0 where
  pub kept : (k : Connection) → In k made → (c ≡ some k) ⊎ In k dropped
  pub held : (k : Connection) → c ≡ some k → In k made

-- The buckets at hand and asked for are over connections that were made.
pub record Bound (b : Option KvBucket) (opening : List KvBucket) (made : List Connection)
    : Type 0 where
  pub at_hand : (k : KvBucket) → b ≡ some k → In k.connection made
  pub asked_for : (k : KvBucket) → In k opening → In k.connection made

pub logged-In :
    (answer : Outcome Connection) (made : List Connection) (k : Connection)
    → In k made
    → In k (logged answer made)
logged-In (ok c) made k m = inr m
logged-In (throw e) made k m = m

pub Bound-logged :
    (b : Option KvBucket) (opening : List KvBucket) (made : List Connection)
    (answer : Outcome Connection)
    → Bound b opening made
    → Bound b opening (logged answer made)
Bound-logged b opening made answer v = record {
  at_hand = λ k h. logged-In answer made k.connection (v.at_hand k h);
  asked_for = λ k m. logged-In answer made k.connection (v.asked_for k m);
}

pub Bound-target :
    (b : Option KvBucket) (opening : List KvBucket) (made dropped : List Connection)
    (c : Option Connection) (params : Option ConnectParams)
    → Tracked c made dropped
    → Bound b opening made
    → (k : KvBucket) → target c params ≡ some k
    → Bound b (k ∷ opening) made
unfolding target
Bound-target b opening made dropped none params t v k h = absurd (cc h)
Bound-target b opening made dropped (some c) none t v k h = absurd (cc h)
Bound-target b opening made dropped (some c) (some p) t v k h = record {
  at_hand = v.at_hand;
  asked_for = asked_for;
}
  where
    asked_for : (a : KvBucket) → In a (k ∷ opening) → In a.connection made
    asked_for a (inl e) =
        rw e (t.held k.connection (ap (λ b. some b.connection) (some-injective _ k h)))
    asked_for a (inr m) = v.asked_for a m

pub Takes-In :
    {b : KvBucket} {bs rest : List KvBucket}
    → Takes b bs rest
    → In b bs × ((k : KvBucket) → In k rest → In k bs)
Takes-In first = (inl refl, λ k m. inr m)
Takes-In (behind {bs} {rest} a t) = let (m, more) = Takes-In t in (inr m, kept more)
  where
    kept : ((k : KvBucket) → In k rest → In k bs) → (k : KvBucket) → In k (a ∷ rest) → In k (a ∷ bs)
    kept more k (inl e) = inl e
    kept more k (inr m) = inr (more k m)

-- Dropping a connection only counts and logs.
pub drop_connection-keeps :
    (o : Option Connection) (n : Shared)
    → ((drop_connection o n).nats ≡ n.nats)
      × ((drop_connection o n).promised ≡ n.promised)
      × ((drop_connection o n).calls ≡ n.calls)
      × ((drop_connection o n).opening ≡ n.opening)
      × ((drop_connection o n).made ≡ n.made)
unfolding drop_connection
drop_connection-keeps none n = (refl, refl, refl, refl, refl)
drop_connection-keeps (some c) n = (refl, refl, refl, refl, refl)

abbrev pub connection_of : Outcome Connection → Option Connection → Option Connection
connection_of (ok k) c = some k
connection_of (throw e) c = c

-- The answer of the client library, while there is no connection.
pub Tracked-logged :
    (answer : Outcome Connection) (c : Option Connection) (made dropped : List Connection)
    → c ≡ none
    → Tracked c made dropped
    → Tracked (connection_of answer c) (logged answer made) dropped
Tracked-logged (throw e) c made dropped h v = v
Tracked-logged (ok k) c made dropped h v = record {
  kept = λ j. kept j;
  held = λ j e. inl (sym (some-injective k j e));
}
  where
    kept : (j : Connection) → In j (k ∷ made) → (some k ≡ some j) ⊎ In j dropped
    kept j (inl e) = inl (ap (λ x. some x) (sym e))
    kept j (inr m) = elim (v.kept j m) [ inl e ↦ cc | inr d ↦ inr d ]

pub Asked-none :
    (b : Bool) (cs : List Call) (c : Option Connection) (p : Option ConnectParams)
    → Asked b cs c p
    → Asked b cs none p
Asked-none b [] c p v = v
Asked-none b (dialing q ∷ []) c p v = (v.0, refl, v.2)
Asked-none b (settled q r ∷ []) c p v = v
Asked-none b (a ∷ (k ∷ ks)) c p v = absurd v

-- Where no promise is set no call waits.
pub Asked-idle :
    (b : Bool) (cs : List Call) (c : Option Connection) (p : Option ConnectParams)
    → b ≡ false
    → Asked b cs c p
    → cs ≡ []
Asked-idle b [] c p h v = refl
Asked-idle b (dialing q ∷ []) c p h v = absurd (cc (sym h ∙ v.0))
Asked-idle b (settled q r ∷ []) c p h v = absurd (cc (sym h ∙ v.0))
Asked-idle b (a ∷ (k ∷ ks)) c p h v = absurd v

-- The call that is answered, or goes on, is the only one.
pub Asked-alone :
    {a : Call} {cs rest : List Call} (b : Bool) (c : Option Connection) (p : Option ConnectParams)
    → Takes a cs rest
    → Asked b cs c p
    → (rest ≡ []) × Asked b (a ∷ []) c p
Asked-alone {a = dialing q} b c p (first {bs = []}) v = (refl, v)
Asked-alone {a = settled q r} b c p (first {bs = []}) v = (refl, v)
Asked-alone b c p (first {bs = k ∷ ks}) v = absurd v
Asked-alone b c p (behind k first) v = absurd v
Asked-alone b c p (behind k (behind j t)) v = absurd v

pub Tracked-none :
    (o : Option Connection) (made dropped : List Connection)
    → o ≡ none
    → Tracked o made dropped
    → Tracked none made dropped
Tracked-none o made dropped e v = subst (λ x. Tracked x made dropped) e v

pub Tracked-dropped :
    (c : Connection) (o : Option Connection) (made dropped : List Connection)
    → o ≡ some c
    → Tracked o made dropped
    → Tracked none made (c ∷ dropped)
Tracked-dropped c o made dropped e v = record {
  kept = λ k m. kept k (v.kept k m);
  held = λ k h. cc;
}
  where
    kept :
        (k : Connection)
        → (o ≡ some k) ⊎ In k dropped
        → (◌≡◌ {A = Option Connection} none (some k)) ⊎ In k (c ∷ dropped)
    kept k (inl h) = inr (inl (some-injective k c (sym h ∙ e)))
    kept k (inr d) = inr (inr d)
