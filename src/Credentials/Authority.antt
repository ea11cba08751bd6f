-- ===== src/Credentials/Authority.antt =====
-- authenticateScopedCredential and RotateScopedCredential of bus/scoped_credentials.go: what a
-- credential proves, and its renewal.
use october_bus.Base.{
  ℕ, String, Bool, true, false, some, List, [], ◌∷◌, ◌≡◌, refl, ap, sym, ◌∙◌, subst, All, ◌&&◌,
  eq_iff, Bool-cases, inl, inr,
}
use Prim.Native.String.{◌++◌ as ◌+++◌}
use october_bus.World.{World, CredentialRow}
use october_bus.Rows.{exists, update}
use october_bus.Rows.Laws.{All-find, find_sound}
use october_bus.Tx.{ok, alter, random_id}
use october_bus.Tx.Keeps.{ok_world}
use october_bus.Tx.Success.{through, through_gets, through_or_fail, through_ensure, pure-ok}
use october_bus.Credentials.{
  ScopedCredentialGrant, Issued, is_credential, rotated, rotate_scoped_credential,
  split_scoped_credential, is_granted, granted_row, authenticate_scoped_credential,
}

-- What is known of a credential that a text was accepted for.
pub record IsProved (w : World) (g : ScopedCredentialGrant) (c : CredentialRow) (secret : String)
    : Type 0 where
  pub enabled : c.enabled ≡ true
  pub secret_known : c.token_hash ≡ w.hashes.token_digest secret
  pub granted : exists (is_granted g c.credential_id) w.resources.grants ≡ true
  pub found : granted_row w c.credential_id g ≡ some c

both : (a b : Bool) → (a && b) ≡ true → (a ≡ true) × (b ≡ true)
both true b h = (refl, h)
both false b h = cc

row_found :
    (g : ScopedCredentialGrant) (w : World) (c : CredentialRow) (P : CredentialRow → Type 0)
    → All P w.resources.credentials
    → granted_row w c.credential_id g ≡ some c
    → P c
unfolding granted_row
row_found g w c P all e = All-find P _ w.resources.credentials c e all

-- A text is accepted only as the identifier and the secret of a credential that is enabled, holds
-- the digest of the secret and has the grant; the check changes nothing.
pub authenticate_scoped_credential_sound :
    (supplied : String) (g : ScopedCredentialGrant) (w w' : World) (c : CredentialRow)
    → authenticate_scoped_credential supplied g w ≡ ok c w'
    → (secret : String) × (split_scoped_credential supplied ≡ some (c.credential_id, secret))
      × IsProved w g c secret
      × (w ≡ w')
unfolding authenticate_scoped_credential granted_row
authenticate_scoped_credential_sound supplied g w w' c h = through_or_fail _ _ _ h λ parts e h₁.
    through_or_fail _ _ _ (through_gets _ _ h₁) λ row e₂ h₂.
      through_ensure _ _ _ (through_gets _ _ h₂) λ t h₃.
        let (same, kept) = pure-ok h₃ in
        let (named, granted) = both _ _ (find_sound _ w.resources.credentials row e₂) in
        let (enabled, known) = both row.enabled _ t in
        subst
          (λ (x : CredentialRow).
            (secret : String) × (split_scoped_credential supplied ≡ some (x.credential_id, secret))
            × IsProved w g x secret
            × (w ≡ w'))
          same
          (
            parts.1,
            e ∙ ap (λ i. some (i, parts.1)) (sym ((eq_iff row.credential_id parts.0).0 named)),
            record {
              enabled = enabled;
              secret_known = (eq_iff row.token_hash (w.hashes.token_digest parts.1)).0 known;
              granted = granted;
              found = ap (λ i. granted_row w i g) ((eq_iff row.credential_id parts.0).0 named) ∙ e₂;
            },
            kept,
          )

-- The rows of a credential after an UPDATE of them.
All-updated :
    (p : CredentialRow → Bool) (f : CredentialRow → CredentialRow) (Q : CredentialRow → Type 0)
    → ((x : CredentialRow) → Q (f x))
    → (rows : List CredentialRow) → All (λ x. p x ≡ true → Q x) (update p f rows)
unfolding update
All-updated p f Q keep [] = tt
All-updated p f Q keep (x ∷ xs) = elim (Bool-cases (p x)) [
  | inl e ↦ rw e (λ g. keep x, All-updated p f Q keep xs)
  | inr e ↦ rw e (λ g. absurd (contrary (sym e ∙ g)), All-updated p f Q keep xs)
]
  where
    contrary : false ≡ true → ⊥
    contrary k = cc

is_credential-of :
    (s id : String) (c : CredentialRow)
    → c.scope_id ≡ s
    → c.credential_id ≡ id
    → is_credential s id c ≡ true
is_credential-of s id c e f = rw ((eq_iff c.scope_id s).1 e, (eq_iff c.credential_id id).1 f) refl

-- The text that a renewal gives out is the identifier and a secret; from then on the credential of
-- that scope and identifier is proved only by secrets with the digest of the new one.
pub rotate_scoped_credential-fences :
    (s id : String) (now : ℕ) (w w' : World) (issued : Issued)
    → rotate_scoped_credential s id now w ≡ ok issued w'
    → (secret : String) × (issued.credential ≡ id +++ ("." +++ secret))
      × ((supplied : String) (g : ScopedCredentialGrant) (c : CredentialRow) (w'' : World)
          → authenticate_scoped_credential supplied g w' ≡ ok c w''
          → c.scope_id ≡ s
          → c.credential_id ≡ id
          → (used : String) × (split_scoped_credential supplied ≡ some (id, used))
            × (w'.hashes.token_digest used ≡ w'.hashes.token_digest secret))
unfolding rotate_scoped_credential random_id alter
rotate_scoped_credential-fences s id now w w' issued h =
    through_or_fail _ _ _ (through_gets _ _ h) λ row e h₁.
      through (random_id "") _ h₁ λ secret w₁ e₁ h₂.
        through
          (alter (λ r. record r {
            credentials =
                update (is_credential s id) (rotated (w₁.hashes.token_digest secret) now)
                  r.credentials;
          }))
          _ (through_gets _ _ h₂)
          λ u w₂ e₂ h₃.
            let (same, last) = pure-ok h₃ in
            let step = ok_world e₂ ∙ last in
            let all =
              subst
                (λ (x : World).
                  All
                    (λ (c : CredentialRow).
                      is_credential s id c ≡ true → c.token_hash ≡ w₁.hashes.token_digest secret)
                    x.resources.credentials)
                step
                (All-updated (is_credential s id) (rotated (w₁.hashes.token_digest secret) now)
                  (λ c. c.token_hash ≡ w₁.hashes.token_digest secret) (λ c. refl)
                  w₁.resources.credentials) in
            let digests = ap (λ (x : World). x.hashes.token_digest secret) step in
            (
              secret,
              sym (ap (λ (x : Issued). x.credential) same),
              λ supplied g c w'' k here named.
                  let (used, split, proved, _) =
                    authenticate_scoped_credential_sound supplied g w' w'' c k in
                  (
                    used,
                    split ∙ ap (λ i. some (i, used)) named,
                    sym proved.secret_known
                        ∙ row_found g w' c _ all proved.found (is_credential-of s id c here named)
                        ∙ digests,
                  ),
            )
