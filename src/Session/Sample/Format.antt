-- ===== src/Session/Sample/Format.antt =====
-- A format for sessions: numbers in strokes and texts with marks, each with what follows it.

use Prim.Native.Char.{code}
use open_pass.Base.{ℕ, zero, suc, String, ◌≡◌, refl, if◌then◌else◌, eqb}
use open_pass.Base.Clock.{ℤ, pos, negsuc}
use open_pass.Session.{StoredSession}

-- A number is written in strokes with a full stop, in front of a rest.
unfoldable pub put_number : ℕ → String → String
put_number zero rest = String.◌∷◌ "." rest
put_number (suc n) rest = String.◌∷◌ "i" (put_number n rest)

unfoldable pub take_number : String → ℕ × String
take_number String.[] = (0, "")
take_number (String.◌∷◌ c s) =
    let rest = take_number s in if eqb (code c) b'i' then (suc rest.0, rest.1) else (0, s)

take_number-put_number : (n : ℕ) (rest : String) → take_number (put_number n rest) ≡ (n, rest)
unfolding put_number take_number
take_number-put_number zero rest = refl
take_number-put_number (suc n) rest = rw (take_number-put_number n rest) refl

unfoldable pub put_integer : ℤ → String → String
put_integer (pos n) rest = String.◌∷◌ "+" (put_number n rest)
put_integer (negsuc n) rest = String.◌∷◌ "-" (put_number n rest)

unfoldable pub take_integer : String → ℤ × String
take_integer String.[] = (pos 0, "")
take_integer (String.◌∷◌ c s) =
    let (n, rest) = take_number s in if eqb (code c) b'+' then (pos n, rest) else (negsuc n, rest)

take_integer-put_integer : (n : ℤ) (rest : String) → take_integer (put_integer n rest) ≡ (n, rest)
unfolding put_integer take_integer
take_integer-put_integer (pos n) rest = rw (take_number-put_number n rest) refl
take_integer-put_integer (negsuc n) rest = rw (take_number-put_number n rest) refl

-- A text is written with a mark before each character, and a full stop.
unfoldable pub put_text : String → String → String
put_text String.[] rest = String.◌∷◌ "." rest
put_text (String.◌∷◌ c s) rest = String.◌∷◌ "c" (String.◌∷◌ c (put_text s rest))

unfoldable pub take_text_of : String → String × String
take_text_of String.[] = ("", "")
take_text_of (String.◌∷◌ m String.[]) = ("", "")
take_text_of (String.◌∷◌ m (String.◌∷◌ c s)) =
    let rest = take_text_of s in
    if eqb (code m) b'c' then (String.◌∷◌ c rest.0, rest.1) else ("", String.◌∷◌ c s)

pub take_text_of-put_text : (s rest : String) → take_text_of (put_text s rest) ≡ (s, rest)
unfolding put_text take_text_of
take_text_of-put_text String.[] String.[] = refl
take_text_of-put_text String.[] (String.◌∷◌ c rest) = refl
take_text_of-put_text (String.◌∷◌ c s) rest = rw (take_text_of-put_text s rest) refl

unfoldable pub put_session : StoredSession → String → String
put_session x rest = put_number x.saved_at (
    put_number x.last_access (
      put_text x.passphrase
        (put_text x.encrypted_passphrase (put_text x.nonce (put_integer x.ttl rest)))))

unfoldable pub take_session : String → StoredSession × String
take_session t =
    let (saved_at, t1) = take_number t in
    let (last_access, t2) = take_number t1 in
    let (passphrase, t3) = take_text_of t2 in
    let (encrypted, t4) = take_text_of t3 in
    let (nonce, t5) = take_text_of t4 in
    let (ttl, t6) = take_integer t5 in
    (
      record {
        saved_at = saved_at;
        last_access = last_access;
        passphrase = passphrase;
        encrypted_passphrase = encrypted;
        nonce = nonce;
        ttl = ttl;
      },
      t6,
    )

pub take_session-put_session :
    (x : StoredSession) (rest : String) → take_session (put_session x rest) ≡ (x, rest)
unfolding take_session put_session
take_session-put_session x rest =
    rw
      (
        take_number-put_number, take_number-put_number, take_text_of-put_text,
        take_text_of-put_text, take_text_of-put_text, take_integer-put_integer,
      )
      refl
