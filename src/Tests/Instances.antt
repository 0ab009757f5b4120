-- ===== src/Tests/Instances.antt =====
-- An in-memory stream and channel, and simple codecs that meet the interfaces' laws.
use nullpipe.Common.{
  ℕ, zero, suc, ◌+◌, ◌-◌, ◌*◌, ◌/◌, ◌%◌, ◌≤◌, ◌<◌, ◌≡◌, refl, sym, ap, ◌∙◌, ◌⊎◌, inl, inr, Bool,
  true, false, List, [], ◌∷◌, ◌++◌, length, take, drop, length-take, take-append, drop-append,
  take-append-drop, All, Option, none, some, Result, ok, err, leb, ◌==◌, if◌then◌else◌, arith,
}
use nullpipe.Std.Utf8.{Bytes, IsByte, IsUtf8, IsUtf8-append, IsUtf8-ascii}
use nullpipe.Std.Text.{Text, Lacks, split_once, split_once-append}
use nullpipe.Types.{IoError, ChatEvent}
use nullpipe.External.Streams.{Stream, StreamLaws, Timed}
use nullpipe.External.Channels.{Sender, SenderLaws}
use nullpipe.External.Codecs.{Base58, Base58Laws, Hex, HexLaws}
use nullpipe.Wire.{Json, JsonLaws, WireMessage, MessageType, chat, system, ping, pong, IsText}

pub record Pipe : Type 0 where
  pub unread : Bytes
  pub sent : Bytes

abbrev eof : IoError
eof = record { kind = 0; to_string = [] }

abbrev pipe_read_exact : ℕ → Pipe → Timed Bytes × Pipe
pipe_read_exact n p =
    if leb n (length p.unread)
    then (ok (ok (take n p.unread)), record p { unread = drop n p.unread })
    else (ok (err eof), record p { unread = [] })

abbrev pipe_read : ℕ → Pipe → Timed Bytes × Pipe
pipe_read n p = (ok (ok (take n p.unread)), record p { unread = drop n p.unread })

abbrev pipe_write : Bytes → Pipe → Timed (Unit {0}) × Pipe
pipe_write bs p = (ok (ok tt), record p { sent = p.sent ++ bs })

abbrev pipe_flush : Pipe → Timed (Unit {0}) × Pipe
pipe_flush p = (ok (ok tt), p)

abbrev pub pipes : Stream
pipes = record {
  State = Pipe;
  read_exact = pipe_read_exact;
  read = pipe_read;
  write_all = pipe_write;
  flush = pipe_flush;
}

pub pipe_read_whole :
    (n : ℕ) (s : Pipe)
    → n ≤ length s.unread
    → ((pipe_read_exact n s).0 ≡ ok (ok (take n s.unread)))
      × ((pipe_read_exact n s).1.unread ≡ drop n s.unread)
      × ((pipe_read_exact n s).1.sent ≡ s.sent)
pipe_read_whole n s h = ground arith

pub pipe_read_end :
    (n : ℕ) (s : Pipe) → length s.unread < n → (pipe_read_exact n s).0 ≡ ok (err eof)
pipe_read_end n s h = ground arith

pub take_empty : (n : ℕ) (bs : Bytes) → 0 < n → (0 < length (take n bs)) ⊎ (bs ≡ [])
take_empty zero bs h = absurd (omega arith)
take_empty (suc n) [] h = inr refl
take_empty (suc n) (b ∷ bs) h = inl (omega arith)

abbrev pub pipe_laws : StreamLaws pipes
pipe_laws = record {
  unread = λ p. p.unread;
  written = λ p. p.sent;
  Up = λ p. Unit {0};
  read_whole = λ n s up h.
      ((pipe_read_whole n s h).0, (pipe_read_whole n s h).1, (pipe_read_whole n s h).2, tt);
  read_end = λ n s up h. (eof, pipe_read_end n s h);
  read_some = λ n s up h. (
    take n s.unread,
    refl,
    sym (take-append-drop n s.unread),
    omega (arith, length-take n s.unread),
    take_empty n s.unread h,
    refl,
    tt,
  );
  write = λ bs s up. (refl, refl, refl, tt);
  flushed = λ s up. (refl, refl, refl, tt);
}

-- A channel that takes every event.
abbrev pub unbounded : Sender
unbounded = record {
  Channel = List ChatEvent;
  try_send = λ e c. (true, c ++ e ∷ []);
  send = λ e c. (true, c ++ e ∷ []);
}

pub never_refused :
    (e : ChatEvent) (c : List ChatEvent) → ◌≡◌ {A = Bool} true false → c ++ e ∷ [] ≡ c
never_refused e c h = cc

abbrev pub unbounded_laws : SenderLaws unbounded
unbounded_laws = record {
  taken = λ c. c;
  Open = λ c. Unit {0};
  try_taken = λ e c h. refl;
  try_refused = never_refused;
  send_taken = λ e c o. (refl, tt);
}

abbrev pub plain58 : Base58
plain58 = record { to_base58 = λ bs. bs; from_base58 = λ t. ok t }

abbrev pub plain58_laws : Base58Laws plain58
plain58_laws = record { decodes = λ bs h. refl; not_empty = λ bs h. h }

-- Each half of a byte as one of the letters from `a` on.
unfoldable pub hex_encode : Bytes → Text
hex_encode [] = []
hex_encode (b ∷ bs) = (b'a' + b / 16 % 16) ∷ (b'a' + b % 16) ∷ hex_encode bs

unfoldable pub hex_decode : Text → Option Bytes
hex_decode [] = some []
hex_decode (a ∷ []) = none
hex_decode (a ∷ b ∷ rest) = elim (hex_decode rest) [
  | none ↦ none
  | some bs ↦ some (((a - b'a') * 16 + (b - b'a')) ∷ bs)
]

pub hex_decodes : (bs : Bytes) → All IsByte bs → hex_decode (hex_encode bs) ≡ some bs
unfolding hex_encode hex_decode
hex_decodes [] h = refl
hex_decodes (b ∷ bs) h = ground (arith, hex_decodes bs h.1)

pub hex_ascii : (bs : Bytes) → All (λ c. c < 0x80) (hex_encode bs)
unfolding hex_encode
hex_ascii [] = tt
hex_ascii (b ∷ bs) = (omega arith, (omega arith, hex_ascii bs))

pub hex_no_colon : (bs : Bytes) → Lacks b':' (hex_encode bs)
unfolding hex_encode
hex_no_colon [] = tt
hex_no_colon (b ∷ bs) = (omega arith, (omega arith, hex_no_colon bs))

abbrev pub letters : Hex
letters = record { encode = hex_encode; decode = hex_decode }

abbrev pub letters_laws : HexLaws letters
letters_laws = record { decodes = hex_decodes; ascii = hex_ascii; no_colon = hex_no_colon }

-- A message as its kind, the length of its name in unary, a dot, the name and the text.
abbrev pub tag : MessageType → ℕ
tag chat = b'c'
tag system = b's'
tag ping = b'i'
tag pong = b'o'

abbrev untag : ℕ → Option MessageType
untag b =
    if b == b'c'
    then some chat
    else if b == b's'
    then some system
    else if b == b'i'
    then some ping
    else if b == b'o'
    then some pong
    else none

unfoldable pub unary : ℕ → Bytes
unary zero = []
unary (suc n) = b'x' ∷ unary n

length-unary : (n : ℕ) → length (unary n) ≡ n
unfolding unary
length-unary zero = refl
length-unary (suc n) = ap suc (length-unary n)

unary-Lacks : (n : ℕ) → Lacks b'.' (unary n)
unfolding unary
unary-Lacks zero = tt
unary-Lacks (suc n) = (omega arith, unary-Lacks n)

unary_ascii : (n : ℕ) → All (λ c. c < 0x80) (unary n)
unfolding unary
unary_ascii zero = tt
unary_ascii (suc n) = (omega arith, unary_ascii n)

unfoldable pub body : WireMessage → Bytes
unfolding unary
body m = unary (length m.name) ++ b'.' ∷ (m.name ++ m.text)

abbrev unbody : MessageType → Option (Bytes × Bytes) → Result WireMessage Text
unbody kind none = err []
unbody kind (some (xs, rest)) =
    ok (record { kind = kind; name = take (length xs) rest; text = drop (length xs) rest })

abbrev unbody_as : Option MessageType → Bytes → Result WireMessage Text
unbody_as none bs = err []
unbody_as (some kind) bs = unbody kind (split_once b'.' bs)

unfoldable pub toy_from_slice : Bytes → Result WireMessage Text
unfolding split_once
toy_from_slice [] = err []
toy_from_slice (b ∷ bs) = unbody_as (untag b) bs

abbrev pub toy_json : Json
toy_json = record { to_vec = λ m. ok (tag m.kind ∷ body m); from_slice = toy_from_slice }

untag-tag : (k : MessageType) → untag (tag k) ≡ some k
untag-tag chat = refl
untag-tag system = refl
untag-tag ping = refl
untag-tag pong = refl

tag_ascii : (k : MessageType) → tag k < 0x80
tag_ascii chat = omega arith
tag_ascii system = omega arith
tag_ascii ping = omega arith
tag_ascii pong = omega arith

toy_decodes : (m : WireMessage) → toy_from_slice (tag m.kind ∷ body m) ≡ ok m
unfolding toy_from_slice body
toy_decodes m =
    let n : ℕ = length m.name in
    rw (
      untag-tag m.kind,
      split_once-append b'.' (unary n) (m.name ++ m.text) (unary-Lacks n),
      length-unary n,
      take-append m.name m.text,
      drop-append m.name m.text,
    )

toy_written : (m : WireMessage) → IsText m → IsUtf8 (tag m.kind ∷ body m)
unfolding body
toy_written m h = IsUtf8-append (tag m.kind ∷ []) _ (IsUtf8-ascii _ (tag_ascii m.kind, tt)) (
    IsUtf8-append (unary (length m.name)) _ (IsUtf8-ascii _ (unary_ascii (length m.name))) (
      IsUtf8-append (b'.' ∷ []) _ (IsUtf8-ascii _ (omega arith))
        (IsUtf8-append m.name m.text h.0 h.1)))

ok_injective : (b c : Bytes) → ◌≡◌ {A = Result Bytes Text} (ok b) (ok c) → b ≡ c
ok_injective b c h = cc

pub toy_json_laws : JsonLaws toy_json
toy_json_laws = record {
  decodes =
      λ m {b} h e. ap toy_from_slice (sym (ok_injective (tag m.kind ∷ body m) b e)) ∙ toy_decodes m;
  written = λ m {b} h e.
      let same : tag m.kind ∷ body m ≡ b = ok_injective (tag m.kind ∷ body m) b e in
      rw (sym same) (toy_written m h, omega arith);
}
