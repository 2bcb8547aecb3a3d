-- ===== src/Audit/Sample.antt =====
-- A concrete encoding of log entries in the place of JSON, with the laws the code relies on.

use Prim.Native.Char.{Char, code}
use open_pass.Base.{
  ℕ, zero, suc, String, Bool, true, false, ◌==◌, ◌≡◌, refl, ap, subst, inl, inr, Option, none, some,
  List, [], ◌∷◌, if◌then◌else◌, eqb, Bool-cases, arith,
}
use text.Mathlib.TextEquality.{Char-path}
use open_pass.Base.Clock.{ℤ, pos, negsuc}
use open_pass.Base.Text.{join, text_length, contains_char}
use open_pass.Base.Text.Lines.{cons_not_empty}
use open_pass.GrantId.Examples.{encode, decode, sample-IsHex}
use open_pass.Audit.{LogEntry, Library, parse_line}
use open_pass.Audit.Writing.{Laws, NoNewline}

-- Two characters for each of a text, none of them a line feed, and a mark at the end.
unfoldable pub escape : String → String → String
escape String.[] rest = join "z." rest
escape (String.◌∷◌ c s) rest =
    if eqb (code c) b'\n'
    then join "y." (escape s rest)
    else String.◌∷◌ "x" (String.◌∷◌ c (escape s rest))

abbrev push : Char → Option (List String) → Option (List String)
push c none = none
push c (some []) = none
push c (some (s ∷ texts)) = some (String.◌∷◌ c s ∷ texts)

abbrev start_text : Option (List String) → Option (List String)
start_text none = none
start_text (some texts) = some ("" ∷ texts)

unfoldable pub unescape : String → Option (List String)
unescape String.[] = some []
unescape (String.◌∷◌ c String.[]) = none
unescape (String.◌∷◌ c (String.◌∷◌ d s)) =
    let rest = unescape s in
    if eqb (code c) b'z'
    then start_text rest
    else if eqb (code c) b'y'
    then push "\n" rest
    else push d rest

unfoldable pub escape_all : List String → String
escape_all [] = ""
escape_all (s ∷ texts) = escape s (escape_all texts)

unescape-escape :
    (s rest : String) (texts : List String)
    → unescape rest ≡ some texts
    → unescape (escape s rest) ≡ some (s ∷ texts)
unfolding escape unescape
unescape-escape String.[] rest texts h = rw h refl
unescape-escape (String.◌∷◌ c s) rest texts h = elim (Bool-cases (eqb (code c) b'\n')) [
  | inl e ↦
      rw (e, unescape-escape s rest texts h)
        (ap (λ d. some (String.◌∷◌ d s ∷ texts)) (Char-path "\n" c (ground (arith, e))))
  | inr e ↦ rw (e, unescape-escape s rest texts h) refl
]

unescape-escape_all : (texts : List String) → unescape (escape_all texts) ≡ some texts
unfolding escape_all unescape
unescape-escape_all [] = refl
unescape-escape_all (s ∷ texts) =
    unescape-escape s (escape_all texts) texts (unescape-escape_all texts)

escape-NoNewline : (s rest : String) → NoNewline rest → NoNewline (escape s rest)
unfolding escape contains_char
escape-NoNewline String.[] rest h = h
escape-NoNewline (String.◌∷◌ c s) rest h = elim (Bool-cases (eqb (code c) b'\n')) [
  | inl e ↦ rw e (escape-NoNewline s rest h)
  | inr e ↦ rw (e) (rw e (escape-NoNewline s rest h))
]

escape_all-NoNewline : (texts : List String) → NoNewline (escape_all texts)
unfolding escape_all contains_char
escape_all-NoNewline [] = refl
escape_all-NoNewline (s ∷ texts) =
    escape-NoNewline s (escape_all texts) (escape_all-NoNewline texts)

escape_not_empty : (s rest : String) → (escape s rest == "") ≡ false
unfolding escape
escape_not_empty String.[] rest = cons_not_empty "z" (join "." rest)
escape_not_empty (String.◌∷◌ c s) rest = elim (Bool-cases (eqb (code c) b'\n')) [
  | inl e ↦ rw e (cons_not_empty "y" (join "." (escape s rest)))
  | inr e ↦ rw e (cons_not_empty "x" (String.◌∷◌ c (escape s rest)))
]

unfoldable pub tally_text : ℕ → String
tally_text zero = ""
tally_text (suc n) = String.◌∷◌ "i" (tally_text n)

text_length-tally_text : (n : ℕ) → text_length (tally_text n) ≡ n
unfolding text_length tally_text
text_length-tally_text zero = refl
text_length-tally_text (suc n) = ap suc (text_length-tally_text n)

abbrev write_int : ℤ → String
write_int (pos n) = String.◌∷◌ "p" (tally_text n)
write_int (negsuc n) = String.◌∷◌ "n" (tally_text n)

abbrev read_int : String → ℤ
read_int String.[] = pos 0
read_int (String.◌∷◌ c s) =
    if eqb (code c) b'p' then pos (text_length s) else negsuc (text_length s)

read_int-write_int : (i : ℤ) → read_int (write_int i) ≡ i
read_int-write_int (pos n) = ap pos (text_length-tally_text n)
read_int-write_int (negsuc n) = ap negsuc (text_length-tally_text n)

abbrev write_bool : Bool → String
write_bool true = "t"
write_bool false = "f"

write_bool_eq : (b : Bool) → (write_bool b == "t") ≡ b
write_bool_eq true = refl
write_bool_eq false = refl

abbrev texts_of : LogEntry → List String
texts_of e =
    e.timestamp
    ∷ e.agent
    ∷ e.action
    ∷ e.path
    ∷ e.field
    ∷ e.transport
    ∷ e.reason
    ∷ e.share_id
    ∷ e.from_agent
    ∷ e.to_agent
    ∷ e.share_action
    ∷ write_int e.dur_ms
    ∷ e.token_id
    ∷ e.request_id
    ∷ e.session_id
    ∷ e.hmac
    ∷ write_bool e.ok
    ∷ []

abbrev entry_of : List String → Option LogEntry
entry_of (a ∷ b ∷ c ∷ d ∷ e ∷ f ∷ g ∷ h ∷ i ∷ j ∷ k ∷ l ∷ m ∷ n ∷ o ∷ p ∷ q ∷ []) = some (record {
  timestamp = a;
  agent = b;
  action = c;
  path = d;
  field = e;
  transport = f;
  reason = g;
  share_id = h;
  from_agent = i;
  to_agent = j;
  share_action = k;
  dur_ms = read_int l;
  token_id = m;
  request_id = n;
  session_id = o;
  hmac = p;
  ok = q == "t";
})
entry_of _ = none

abbrev entry_of_option : Option (List String) → Option LogEntry
entry_of_option none = none
entry_of_option (some texts) = entry_of texts

abbrev pub sample_library : Library
sample_library = record {
  marshal = λ e. some (escape_all (texts_of e));
  unmarshal = λ line. entry_of_option (unescape line);
  trim_space = λ s. s;
  hmac_sha256 = λ key text. String.◌∷◌ "h" (join key text);
  hex_encode = encode;
  hex_decode = decode;
}

not_empty_texts : (e : LogEntry) → (escape_all (texts_of e) == "") ≡ false
unfolding escape_all
not_empty_texts e = escape_not_empty e.timestamp _

some_path : (a b : String) → some a ≡ some b → a ≡ b
some_path a b h = ground (arith, h)

digest_text_sample : (s : String) → (encode (String.◌∷◌ "h" s) == "") ≡ false
unfolding encode
digest_text_sample s = cons_not_empty "x" (String.◌∷◌ "h" (encode s))

parse-marshal : (e : LogEntry) → parse_line sample_library (escape_all (texts_of e)) ≡ some e
parse-marshal e =
    let nonempty : (escape_all (texts_of e) == "") ≡ false = not_empty_texts e in
    rw (nonempty, unescape-escape_all (texts_of e), read_int-write_int e.dur_ms, write_bool_eq e.ok)
      refl

pub sample-Laws : Laws sample_library (λ e. true)
sample-Laws = record {
  trim_empty = refl;
  signed_text = λ key prev e h. refl;
  line_parses = λ e line u h.
      subst (λ l. parse_line sample_library l ≡ some e) (some_path _ line h) (parse-marshal e);
  line_whole = λ e line h. subst NoNewline (some_path _ line h) (escape_all-NoNewline (texts_of e));
  hex = sample-IsHex.decode-encode;
  digest_text = λ key text. digest_text_sample (join key text);
}
