-- ===== src/Examples/Loaders.antt =====
-- The loaders over an encoding of one message and over a file that is a value.
use native.Mathlib.Decide.{ℕ_discrete}
use cofidectl.Common.{◌≡◌, refl, ap, Option, none, some, [], ◌∷◌, arith}
use cofidectl.Common.Errors.{Result, ok, err, library}
use cofidectl.Config.{Config, ConfigProto, to_proto}
use cofidectl.Config.Loader.{
  Bytes, Codec, FileSystem, Stat, found, missing, memory_loader, file_loader, blank,
}
use cofidectl.Config.Loader.Persistence.{
  Persists, IsCodec, IsFileSystem, IsStorable, memory_loader-Persists, file_loader-Persists,
}
use cofidectl.Examples.Data.{String_discrete, small}

pub ConfigProto_discrete : Discrete ConfigProto
ConfigProto_discrete = hlevel (ℕ_discrete, String_discrete)

abbrev encoded : {message p : ConfigProto} → Dec (message ≡ p) → Result Bytes
encoded (yes same) = ok []
encoded (no other) = err (library "another message")

pub encoded_self : {message : ConfigProto} (d : Dec (message ≡ message)) → encoded d ≡ ok []
encoded_self (yes same) = refl
encoded_self (no other) = absurd (other refl)

module _ (message : ConfigProto) where
  abbrev encode : ConfigProto → Result Bytes
  encode p = encoded (ConfigProto_discrete message p)

  abbrev decode : Bytes → ConfigProto → Result ConfigProto
  decode [] p = ok message
  decode (b ∷ bs) p = err (library "too long")

  abbrev pub one_message : Codec
  one_message = record {
    marshal = encode;
    unmarshal = decode;
    compile_schema = ok tt;
    cue_validate = λ bs. ok tt;
  }

  decode-encoded :
      (p : ConfigProto) (d : Dec (message ≡ p)) (bs : Bytes)
      → encoded d ≡ ok bs
      → decode bs (blank one_message) ≡ ok p
  decode-encoded p (yes same) [] h = ap ok same
  decode-encoded p (yes same) (b ∷ bs) h = ground arith
  decode-encoded p (no other) bs h = ground arith

  pub one_message-IsCodec : IsCodec one_message
  one_message-IsCodec = record {
    compiles = refl;
    round_trips = λ p bs c h. decode-encoded p (ConfigProto_discrete message p) bs h;
  }

abbrev pub message_of : Config → ConfigProto
unfolding to_proto
message_of c = to_proto c

abbrev stat_file : Option Bytes → Stat
stat_file none = missing
stat_file (some bs) = found

abbrev read_bytes : Option Bytes → Result Bytes
read_bytes none = err (library "no such file")
read_bytes (some bs) = ok bs

abbrev one_file : FileSystem (Option Bytes)
one_file = record {
  stat = stat_file;
  read_file = read_bytes;
  write_file = λ bs s. (ok tt, some bs);
}

one_file-IsFileSystem : IsFileSystem one_file
one_file-IsFileSystem = record { written = λ bs s s' h. ground arith }

abbrev codec : Codec
codec = one_message (message_of small)

memory_loader-Persists_example : Persists (IsStorable codec) (memory_loader codec)
memory_loader-Persists_example =
    memory_loader-Persists codec (one_message-IsCodec (message_of small))

file_loader-Persists_example : Persists (IsStorable codec) (file_loader codec one_file)
file_loader-Persists_example =
    file_loader-Persists codec (one_message-IsCodec (message_of small)) one_file
      one_file-IsFileSystem
