-- ===== src/Evolution/Others.antt =====
-- The shared tables whose statements name the scope of their rows: the usage of credentials, the
-- channels, their subscriptions and their posts.
use october_bus.Base.{
  String, Bool, true, false, List, [], ◌∷◌, ◌++◌, ◌≡◌, ◌≢◌, refl, sym, ap, ◌∙◌, arith, ◌is◌, eq_iff,
  Bool-cases, inl, inr,
}
use october_bus.World.{Resources, UsageRow, ChannelRow, SubscriptionRow, PostRow}
use october_bus.Rows.{select, delete, update}

-- The rows of every other scope are the same, in the same order.
unfoldable pub SameOthers : {A : Type 0} → (A → String) → String → List A → List A → Type 0
SameOthers scope s xs ys =
    (o : String) → s ≢ o → select (λ x. scope x is o) ys ≡ select (λ x. scope x is o) xs

is-refute : (a b : String) → a ≢ b → (a is b) ≡ false
is-refute a b h = ground (arith, eq_iff a b)

module _ {A : Type 0} (scope : A → String) (s : String) where
  pub SameOthers-refl : (xs : List A) → SameOthers scope s xs xs
  unfolding SameOthers
  SameOthers-refl xs o apart = refl

  pub SameOthers-trans :
      (xs ys zs : List A)
      → SameOthers scope s xs ys
      → SameOthers scope s ys zs
      → SameOthers scope s xs zs
  unfolding SameOthers
  SameOthers-trans xs ys zs g h o apart = h o apart ∙ g o apart

  pub SameOthers-append : (xs : List A) (y : A) → scope y ≡ s → SameOthers scope s xs (xs ++ y ∷ [])
  unfolding SameOthers select
  SameOthers-append [] y here o apart = rw (is-refute (scope y) o (λ e. apart (sym here ∙ e))) refl
  SameOthers-append (x ∷ xs) y here o apart = elim (Bool-cases (scope x is o)) [
    | inl e ↦ rw e (ap (λ rows. x ∷ rows) (SameOthers-append xs y here o apart))
    | inr e ↦ rw e (SameOthers-append xs y here o apart)
  ]

  pub SameOthers-delete :
      (p : A → Bool)
      → ((x : A) → p x ≡ true → scope x ≡ s)
      → (xs : List A) → SameOthers scope s xs (delete p xs)
  unfolding SameOthers select delete
  SameOthers-delete p here [] o apart = refl
  SameOthers-delete p here (x ∷ xs) o apart = elim (Bool-cases (p x)) [
    | inl e ↦
        rw (e, is-refute (scope x) o (λ k. apart (sym (here x e) ∙ k)))
          (SameOthers-delete p here xs o apart)
    | inr e ↦ elim (Bool-cases (scope x is o)) [
      | inl k ↦ rw (e, k) (ap (λ rows. x ∷ rows) (SameOthers-delete p here xs o apart))
      | inr k ↦ rw (e, k) (SameOthers-delete p here xs o apart)
    ]
  ]

  pub SameOthers-update :
      (p : A → Bool) (f : A → A)
      → ((x : A) → p x ≡ true → scope x ≡ s)
      → ((x : A) → scope (f x) ≡ scope x)
      → (xs : List A) → SameOthers scope s xs (update p f xs)
  unfolding SameOthers select update
  SameOthers-update p f here same [] o apart = refl
  SameOthers-update p f here same (x ∷ xs) o apart = elim (Bool-cases (p x)) [
    | inl e ↦
        (let no = is-refute (scope x) o (λ k. apart (sym (here x e) ∙ k)) in
          rw (e, same x, no) (SameOthers-update p f here same xs o apart))
    | inr e ↦ elim (Bool-cases (scope x is o)) [
      | inl k ↦ rw (e, k) (ap (λ rows. x ∷ rows) (SameOthers-update p f here same xs o apart))
      | inr k ↦ rw (e, k) (SameOthers-update p f here same xs o apart)
    ]
  ]

pub record KeepsOthers (s : String) (r r' : Resources) : Type 0 where
  pub usage : SameOthers (λ (x : UsageRow). x.scope_id) s r.usage r'.usage
  pub channels : SameOthers (λ (x : ChannelRow). x.scope_id) s r.channels r'.channels
  pub subscriptions :
      SameOthers (λ (x : SubscriptionRow). x.scope_id) s r.subscriptions r'.subscriptions
  pub posts : SameOthers (λ (x : PostRow). x.scope_id) s r.posts r'.posts

pub KeepsOthers-refl : (s : String) (r : Resources) → KeepsOthers s r r
KeepsOthers-refl s r = record {
  usage = SameOthers-refl _ s r.usage;
  channels = SameOthers-refl _ s r.channels;
  subscriptions = SameOthers-refl _ s r.subscriptions;
  posts = SameOthers-refl _ s r.posts;
}

pub KeepsOthers-trans :
    (s : String) (q r t : Resources) → KeepsOthers s q r → KeepsOthers s r t → KeepsOthers s q t
KeepsOthers-trans s q r t g h = record {
  usage = SameOthers-trans _ s q.usage r.usage t.usage g.usage h.usage;
  channels = SameOthers-trans _ s q.channels r.channels t.channels g.channels h.channels;
  subscriptions =
      SameOthers-trans _ s q.subscriptions r.subscriptions t.subscriptions g.subscriptions
        h.subscriptions;
  posts = SameOthers-trans _ s q.posts r.posts t.posts g.posts h.posts;
}

-- A change of the other tables.
pub KeepsOthers-apart :
    (s : String) (r r' : Resources)
    → r'.usage ≡ r.usage
    → r'.channels ≡ r.channels
    → r'.subscriptions ≡ r.subscriptions
    → r'.posts ≡ r.posts
    → KeepsOthers s r r'
unfolding SameOthers
KeepsOthers-apart s r r' u c b p = record {
  usage = λ o apart. ap (select (λ (x : UsageRow). x.scope_id is o)) u;
  channels = λ o apart. ap (select (λ (x : ChannelRow). x.scope_id is o)) c;
  subscriptions = λ o apart. ap (select (λ (x : SubscriptionRow). x.scope_id is o)) b;
  posts = λ o apart. ap (select (λ (x : PostRow). x.scope_id is o)) p;
}
