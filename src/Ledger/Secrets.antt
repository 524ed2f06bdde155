-- ===== src/Ledger/Secrets.antt =====
-- What `_reject_secrets` of src/local_agent_dispatch/ledger/store.py lets pass.
use local_agent_dispatch.Ledger.Json.{object, Fields, end, field, find}
use local_agent_dispatch.Ledger.Store.{forbidden_secret_keys, has_secret, holds_secret}
use local_agent_dispatch.Prelude.Keys.{◌=?◌, string_eq, is_in}
use local_agent_dispatch.Prelude.{
  String, ◌≡◌, refl, inl, inr, Bool, true, false, ◌||◌, none, some, arith, Bool-cases,
  some-injective, ap, sym, ◌∙◌, true≢false,
}

-- The names under which a secret would stand.
pub data IsSecretKey : String → Type 0 where
  prompt_body : IsSecretKey "prompt_body"
  context_body : IsSecretKey "context_body"
  prompt : IsSecretKey "prompt"
  prompt_text : IsSecretKey "prompt_text"
  credentials : IsSecretKey "credentials"
  credential : IsSecretKey "credential"
  api_key : IsSecretKey "api_key"
  auth_token : IsSecretKey "auth_token"
  access_token : IsSecretKey "access_token"
  secret : IsSecretKey "secret"
  password : IsSecretKey "password"
  ssh_key : IsSecretKey "ssh_key"

-- The dict itself, a dict that is the value of one of its fields, and so on down; lists are not
-- looked into.
pub data Inside (e : Fields) : Fields → Type 0 where
  itself : Inside e e
  value_of : {d f : Fields} (k : String) → Inside e d → find k d ≡ some (object f) → Inside e f

secret-listed : {k : String} → IsSecretKey k → is_in k forbidden_secret_keys ≡ true
secret-listed prompt_body = refl
secret-listed context_body = refl
secret-listed prompt = refl
secret-listed prompt_text = refl
secret-listed credentials = refl
secret-listed credential = refl
secret-listed api_key = refl
secret-listed auth_token = refl
secret-listed access_token = refl
secret-listed secret = refl
secret-listed password = refl
secret-listed ssh_key = refl

none_true : (a b c : Bool) → (a || b || c) ≡ false → (a ≡ false) × (b ≡ false) × (c ≡ false)
none_true a b c h = ground arith

-- What a dict without a secret has under a key: nothing, if the key is forbidden, and no dict with one.
no_key :
    (k : String) (d : Fields)
    → has_secret d ≡ false
    → is_in k forbidden_secret_keys ≡ true
    → find k d ≡ none
unfolding has_secret find
no_key k end clean listed = refl
no_key k (field j v fs) clean listed =
    let (not_listed, _, rest) =
      none_true (is_in j forbidden_secret_keys) (holds_secret v) (has_secret fs) clean in
    elim (Bool-cases (j =? k)) [
      | inl same ↦ absurd (
          true≢false (
            sym listed
            ∙ ap (λ x. is_in x forbidden_secret_keys) (sym ((string_eq.beq_iff j k).0 same))
            ∙ not_listed))
      | inr other ↦ rw other (no_key k fs rest listed)
    ]

no_secret_below :
    (k : String) (d f : Fields)
    → has_secret d ≡ false
    → find k d ≡ some (object f)
    → has_secret f ≡ false
unfolding has_secret holds_secret find
no_secret_below k end f clean h = cc
no_secret_below k (field j v fs) f clean h =
    let (_, below, rest) =
      none_true (is_in j forbidden_secret_keys) (holds_secret v) (has_secret fs) clean in
    elim (Bool-cases (j =? k)) [
      | inl same ↦
          let is_value : v ≡ object f = some-injective (rw same at h) in
          sym (ap (λ w. holds_secret w) is_value) ∙ below
      | inr other ↦ no_secret_below k fs f rest (rw other at h)
    ]

Inside-clean : {e d : Fields} → has_secret e ≡ false → Inside e d → has_secret d ≡ false
Inside-clean clean itself = clean
Inside-clean clean (value_of {d} {f} k above at_k) =
    no_secret_below k d f (Inside-clean clean above) at_k

-- Where `_reject_secrets` does not raise, no dict inside has a forbidden key.
pub has_secret-Inside :
    {e : Fields}
    → has_secret e ≡ false
    → (d : Fields) → Inside e d
    → (k : String) → IsSecretKey k
    → find k d ≡ none
has_secret-Inside clean d inside k secret_key =
    no_key k d (Inside-clean clean inside) (secret-listed secret_key)
