-- ===== src/Session/Examples.antt =====
-- Runs of the session cache on a sample keyring.

use open_pass.Base.{◌≡◌, refl, none, some, [], ◌∷◌, arith}
use open_pass.Base.Assoc.{lookup}
use open_pass.Base.Clock.{pos}
use open_pass.Base.Text.{text_length}
use open_pass.Session.Interface.{RandomLaws}
use open_pass.Session.{
  get_or_create_wrap_key, store_passphrase, store_identity, encrypt_passphrase, save_passphrase,
  load_passphrase, clear_session, load_identity, save_identity,
}
use open_pass.Session.Loading.{load_at, load_passphrase-save_passphrase, regular_use_lasts}
use open_pass.Session.Ending.{load-clear_session}
use open_pass.Session.Memory.{MemoryKeyring, memory_set, memory_get, memory_keyring}
use open_pass.Session.Memory.Identity.{load_identity-save_identity}
use open_pass.Session.Sample.Format.{
  put_session, take_session, put_number, take_number, put_text, take_text_of, put_integer,
  take_integer,
}
use open_pass.Session.Sample.{
  some_injective, sample_codec, sample_random, Entries, sample_keyring, sample-CodecLaws,
  sample-SharedFormat, sample-KeyringLaws, sample-NoFaults,
}

sample-RandomLaws : RandomLaws sample_random
unfolding text_length
sample-RandomLaws = record {
  key_length = λ key h. rw (← some_injective "abcdefghijklmnopqrstuvwxyz012345" key h) refl;
  key_not_empty = λ key h. rw (← some_injective "abcdefghijklmnopqrstuvwxyz012345" key h) refl;
  nonce_not_empty = λ nonce h. rw (← some_injective "nonce" nonce h) refl;
}

abbrev no_entries : Entries
no_entries service account = none

abbrev saved_entries : Entries
saved_entries =
    (save_passphrase sample_codec sample_keyring 10 sample_random "v" "secret" (pos 5) no_entries).0

saves :
    (save_passphrase sample_codec sample_keyring 10 sample_random "v" "secret" (pos 5) no_entries).1
    ≡ some tt
unfolding save_passphrase get_or_create_wrap_key store_passphrase encrypt_passphrase
saves = refl

load_passphrase-save_passphrase_example :
    (load_passphrase sample_codec sample_keyring 14 sample_random "v" saved_entries).1
    ≡ some "secret"
load_passphrase-save_passphrase_example =
    load_passphrase-save_passphrase sample_codec sample-CodecLaws sample_keyring sample-KeyringLaws
      sample_random sample-RandomLaws "v" 10 14 5 "secret" no_entries (omega arith) (omega arith)
      saves

regular_use_lasts_example :
    load_at sample_codec sample-CodecLaws sample_keyring sample-KeyringLaws sample_random
      sample-RandomLaws "v"
      (14 ∷ 18 ∷ 23 ∷ [])
      saved_entries
    ≡ some "secret" ∷ some "secret" ∷ some "secret" ∷ []
regular_use_lasts_example =
    regular_use_lasts sample_codec sample-CodecLaws sample_keyring sample-KeyringLaws sample_random
      sample-RandomLaws "v" (14 ∷ 18 ∷ 23 ∷ []) 10 5 "secret" no_entries sample-NoFaults
      (omega arith) saves (omega arith)

load-clear_session_example :
    let s' = (clear_session sample_codec sample_keyring 12 sample_random "v" saved_entries).0 in
    ((load_passphrase sample_codec sample_keyring 13 sample_random "v" s').1 ≡ none)
    × ((load_identity sample_codec sample_keyring 13 sample_random "v" s').1 ≡ none)
load-clear_session_example =
    load-clear_session sample_codec sample_keyring sample-KeyringLaws sample_random "v" 12 13
      saved_entries (λ service account s. refl)

abbrev no_memory : MemoryKeyring
no_memory = record { store = [] }

abbrev identity_saved : MemoryKeyring
identity_saved =
    (save_identity sample_codec (memory_keyring sample_codec) 10 sample_random "v" "AGE" (pos 5)
      no_memory).0

identity_saves :
    (save_identity sample_codec
      (memory_keyring sample_codec)
      10
      sample_random
      "v"
      "AGE"
      (pos 5)
      no_memory).1
    ≡ some tt
unfolding save_identity get_or_create_wrap_key store_identity encrypt_passphrase memory_set
    memory_get put_session take_session put_number take_number put_text take_text_of put_integer
    take_integer lookup
identity_saves = refl

load_identity-save_identity_example :
    (load_identity sample_codec (memory_keyring sample_codec) 11 sample_random "v" identity_saved).1
    ≡ none
load_identity-save_identity_example =
    load_identity-save_identity sample_codec sample-SharedFormat sample_random "v" 10 11 (pos 5)
      "AGE" no_memory identity_saves
