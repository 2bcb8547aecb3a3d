-- ===== src/Session/Sample.antt =====
-- A format for sessions and identities, a cipher and a keyring, on which the session cache runs.
pub mod Format
use Prim.Native.Char.{code}
use open_pass.Base.{
  ℕ, zero, suc, String, false, ◌==◌, ◌≡◌, refl, Option, none, some, if◌then◌else◌, eqb, arith,
  eq_refl,
}
use open_pass.Base.Clock.{ℤ, pos, negsuc}
use open_pass.Base.Text.Lines.{cons_not_empty}
use open_pass.Session.{StoredSession, StoredIdentity, Codec, Keyring, Random}
use open_pass.Session.Interface.{CodecLaws, KeyringLaws, NoFaults}
use open_pass.Session.Sample.Format.{
  put_text, take_text_of, put_session, take_session, take_session-put_session,
  take_text_of-put_text,
}
use open_pass.Session.Memory.Identity.{as_session, SharedFormat}

abbrev identity_with : StoredSession → String → StoredIdentity
identity_with x secret = record {
  saved_at = x.saved_at;
  last_access = x.last_access;
  encrypted_identity = secret;
  nonce = x.nonce;
  ttl = x.ttl;
}

abbrev read_identity : String → StoredIdentity
read_identity t = let (x, rest) = take_session t in identity_with x (take_text_of rest).0

-- the text behind an opening brace
abbrev pub object_text : String → Option String
object_text String.[] = none
object_text (String.◌∷◌ c s) = if eqb (code c) b'{' then some s else none

abbrev object_session : Option String → Option StoredSession
object_session none = none
object_session (some s) = some (take_session s).0

abbrev object_identity : Option String → Option StoredIdentity
object_identity none = none
object_identity (some s) = some (read_identity s)

abbrev pub written_session : StoredSession → String → String
written_session x rest = String.◌∷◌ "{" (put_session x rest)

abbrev pub written_identity : StoredIdentity → String
written_identity i = written_session (as_session i) (put_text i.encrypted_identity "")

abbrev opened : String → Option String
opened String.[] = none
opened (String.◌∷◌ c plain) = some plain

abbrev pub sample_codec : Codec
sample_codec = record {
  encode_session = λ x. some (written_session x "");
  decode_session = λ t. object_session (object_text t);
  encode_identity = λ i. some (written_identity i);
  decode_identity = λ t. object_identity (object_text t);
  base64 = λ s. s;
  unbase64 = some;
  seal = λ key nonce plain. some (String.◌∷◌ "s" plain);
  unseal = λ key nonce sealed. opened sealed;
}

pub some_injective : {A : Type 0} (a b : A) → some a ≡ some b → a ≡ b
some_injective a b h = cc

read_session :
    (x : StoredSession) (rest t : String)
    → some (written_session x rest) ≡ some t
    → object_session (object_text t) ≡ some x
read_session x rest t h =
    rw (← some_injective (written_session x rest) t h) (rw (take_session-put_session x rest) refl)

reads_identity :
    (i : StoredIdentity) (t : String)
    → some (written_identity i) ≡ some t
    → object_identity (object_text t) ≡ some i
reads_identity i t h = rw (← some_injective (written_identity i) t h) (
    rw
      (
        take_session-put_session (as_session i) (put_text i.encrypted_identity ""),
        take_text_of-put_text i.encrypted_identity "",
      )
      refl)

unseals :
    (plain sealed : String) → some (String.◌∷◌ "s" plain) ≡ some sealed → opened sealed ≡ some plain
unseals plain sealed h = rw (← some_injective (String.◌∷◌ "s" plain) sealed h) refl

sealed_not_empty :
    (plain sealed : String) → some (String.◌∷◌ "s" plain) ≡ some sealed → (sealed == "") ≡ false
sealed_not_empty plain sealed h =
    rw (← some_injective (String.◌∷◌ "s" plain) sealed h) (cons_not_empty "s" plain)

pub sample-CodecLaws : CodecLaws sample_codec
sample-CodecLaws = record {
  decode-encode_session = λ x t. read_session x "" t;
  decode-encode_identity = reads_identity;
  unbase64-base64 = λ s. refl;
  base64_not_empty = λ s h. h;
  unseal-seal = λ key nonce plain sealed. unseals plain sealed;
  seal_not_empty = λ key nonce plain sealed. sealed_not_empty plain sealed;
}

pub sample-SharedFormat : SharedFormat sample_codec
sample-SharedFormat = record {
  decode-encode_identity = λ i t. read_session (as_session i) (put_text i.encrypted_identity "") t;
  decode-encode_session = λ x t. read_session x "" t;
}

abbrev pub sample_random : Random
sample_random = record { key = some "abcdefghijklmnopqrstuvwxyz012345"; nonce = some "nonce" }

-- A keyring by service and account.
abbrev pub Entries : Type 0
Entries = (service account : String) → Option String

abbrev put_entry : (service account : String) → Option String → Entries → Entries
put_entry service account value s other_service other =
    if service == other_service
    then (if account == other then value else s other_service other)
    else s other_service other

abbrev pub sample_keyring : Keyring Entries
sample_keyring = record {
  set = λ nonce service account value s. (put_entry service account (some value) s, some tt);
  get = λ now service account s. (s, s service account);
  delete = λ service account s. (put_entry service account none s, some tt);
}

put_entry_lem :
    (service account other : String) (value : Option String) (s : Entries)
    → put_entry service account value s service other
      ≡ (if account == other then value else s service other)
put_entry_lem service account other value s = rw (eq_refl service) refl

never_fails : (s s' : Entries) → some (tt {0}) ≡ none → s' ≡ s
never_fails s s' h = absurd (ground (arith, h))

pub sample-KeyringLaws : KeyringLaws sample_keyring
sample-KeyringLaws = record {
  view = λ s service account. s service account;
  get_lem = λ now service account s. refl;
  view-set =
      λ nonce service account value other s h. put_entry_lem service account other (some value) s;
  set_failed = λ nonce service account value s h. never_fails _ _ h;
  view-delete = λ service account other s h. put_entry_lem service account other none s;
  delete_failed = λ service account s h. never_fails _ _ h;
}

pub view_lem :
    (s : Entries) (service account : String)
    → sample-KeyringLaws.view s service account ≡ s service account
unfolding sample-KeyringLaws
view_lem s service account = refl

pub sample-NoFaults : NoFaults sample_codec sample_keyring
sample-NoFaults = record {
  encodes = λ x. (written_session x "", refl);
  sets = λ nonce service account value s. refl;
}
