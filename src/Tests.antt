-- ===== src/Tests.antt =====
-- Runs of the model, and its theorems at concrete inputs. The crates here are toys that meet the
-- laws: a digest is the length of its input, repeated, and a signature names its key.
mod Outside
mod Attesting
mod Packets
mod Chains
mod Signing
mod Refusing
mod Requests
mod Commands
mod Loading
mod Counting
mod Serving
mod Labels
mod Signed
mod Attestor
mod Health
mod Metered
use mathlib.Core.Path.{fun_ext}
use native.Mathlib.Nat.{pow-suc, pow-zero}
use ibc_attestor.Common.{
  ℕ, zero, suc, ◌*◌, ◌^◌, ◌%◌, ◌≡◌, ◌∙◌, refl, sym, ok_injective, ap, Bool, true, false, String,
  Option, none, some, List, [], ◌∷◌, ◌++◌, Result, ok, err, Bytes, min, length, replicate, arith,
  if◌then◌else◌,
}
use ibc_attestor.Common.Int.{ℤ}
use ibc_attestor.Crates.{
  Crates, Packet, RetryLaws, CollectLaws, HashLaws, SignatureLaws, KeystoreLaws, retry_next,
  StateAttestation, PacketAttestation,
}
use ibc_attestor.Error.{Code, invalid_argument, not_found, failed_precondition, internal}
use ibc_attestor.Future.{Future, ready, awaits, bind}
use ibc_attestor.Future.Collect.{
  collect_ordered, collect_ordered-RunsAmong, Returns-collect_ordered, collect_ordered-Emits,
}
use ibc_attestor.World.{sleep}

unfoldable pub retry_if :
    {S E A : Type 0}
    → List ℕ
    → (S → Future (S × Result E A))
    → (E → Bool)
    → S
    → Future (S × Result E A)
retry_if [] action cond s = bind (action s) (retry_next [] cond (λ ds t. action t))
retry_if (d ∷ delays) action cond s =
    bind (action s) (retry_next (d ∷ delays) cond (λ ds t. retry_if delays action cond t))

unfoldable pub delays_from : ℕ → ℕ → ℕ → ℕ → ℕ → List ℕ
delays_from zero current base factor most = []
delays_from (suc count) current base factor most =
    min (current * factor) most ∷ delays_from count (current * base) base factor most

abbrev pub toy_digest : Bytes → Bytes
toy_digest b = replicate 32 (length b % 256)

abbrev pub toy_commitment : Packet → Bytes
toy_commitment p = replicate 32 p.sequence

abbrev pub first_byte : Bytes → Result String ℕ
first_byte [] = err "empty"
first_byte (x ∷ b) = ok x

abbrev pub toy_decrypt : Option Bytes → String → Result String ℕ
toy_decrypt none password = err "No such file or directory (os error 2)"
toy_decrypt (some []) password = err "EOF while parsing"
toy_decrypt (some (entropy ∷ key)) password = first_byte key

abbrev pub toy_packet : ℕ → Packet
toy_packet sequence = record {
  sequence = sequence;
  source_client = "src-client";
  dest_client = "dst-client";
  timeout_timestamp = 123_456_789;
  payloads = [];
}

abbrev pub toy_decode : Bytes → Result String Packet
toy_decode [] = err "buffer overrun"
toy_decode (x ∷ b) = ok (toy_packet x)

-- Short names for the codes, with the same capitals.
abbrev pub toy_name : Code → List ℕ
toy_name Code.ok = 79 ∷ 107 ∷ []
toy_name invalid_argument = 73 ∷ 65 ∷ 97 ∷ []
toy_name not_found = 78 ∷ 70 ∷ 97 ∷ []
toy_name failed_precondition = 70 ∷ 80 ∷ 97 ∷ []
toy_name internal = 73 ∷ 110 ∷ []

-- The futures of a batch advance in the order of `turns`.
abbrev pub crates_with : List ℕ → Crates
crates_with turns = record {
  sha256 = toy_digest;
  keccak256 = toy_digest;
  hex_encode = λ b. "..";
  commitment_path = λ p. 1 ∷ p.sequence ∷ [];
  ack_commitment_path = λ p. 3 ∷ p.sequence ∷ [];
  receipt_commitment_path = λ p. 2 ∷ p.sequence ∷ [];
  packet_commitment = toy_commitment;
  abi_decode = toy_decode;
  abi_encode_state = λ s. s.height ∷ s.timestamp ∷ [];
  abi_encode_packets = λ a. a.height ∷ length a.packets ∷ [];
  unknown_enum_value_text = λ v. "unknown enumeration value";
  code_debug = toy_name;
  packet_commitment_pda = λ client sequence program. (1 ∷ sequence ∷ program, 255);
  packet_ack_pda = λ client sequence program. (2 ∷ sequence ∷ program, 255);
  packet_receipt_pda = λ client sequence program. (3 ∷ sequence ∷ program, 255);
  pubkey_from_str = λ s. ok (9 ∷ []);
  height_try_from = λ n. some n;
  http_client_new = λ url. ok url;
  Signature = ℕ;
  as_bytes = λ s. s ∷ replicate 64 0;
  signature_try_from = first_byte;
  PrivateKeySigner = ℕ;
  address = λ k. k ∷ [];
  sign_hash_sync = λ k hash. ok k;
  recover_address_from_prehash = λ s hash. ok (s ∷ []);
  random_key = λ seed. seed;
  credential_bytes = λ k. k ∷ [];
  encrypt_keystore = λ entropy key password. (entropy ∷ key, "keystore-1");
  decrypt_keystore = toy_decrypt;
  endpoint_from_shared = λ url. ok url;
  metadata_value = λ s. ok s;
  exponential_backoff = λ base factor most count. delays_from count base base factor most;
  retry_if = retry_if;
  collect_ordered = collect_ordered turns;
}

abbrev pub crates : Crates
crates = crates_with []

retry_next_ext :
    {S E A : Type 0} (delays : List ℕ) (cond : E → Bool)
    (f g : List ℕ → S → Future (S × Result E A))
    → ((d : ℕ) (ds : List ℕ) (s : S) → delays ≡ d ∷ ds → f ds s ≡ g ds s)
    → (v : S × Result E A) → retry_next delays cond f v ≡ retry_next delays cond g v
retry_next_ext delays cond f g same (s, ok a) = refl
retry_next_ext [] cond f g same (s, err e) = refl
retry_next_ext (d ∷ ds) cond f g same (s, err e) =
    ap (λ t. if cond e then awaits (sleep d) (λ _. t) else ready (s, err e)) (same d ds s refl)

retry_if-step :
    {S E A : Type 0} (delays : List ℕ) (action : S → Future (S × Result E A)) (cond : E → Bool)
    (s : S)
    → retry_if delays action cond s
      ≡ bind (action s) (retry_next delays cond (λ ds. retry_if ds action cond))
unfolding retry_if
retry_if-step [] action cond s = ap (bind (action s)) (
    fun_ext
      (retry_next_ext [] cond (λ ds t. action t) (λ ds. retry_if ds action cond) (λ d ds t e. cc)))
retry_if-step (d ∷ delays) action cond s = ap (bind (action s)) (
    fun_ext (
      retry_next_ext (d ∷ delays) cond _ _
        (λ d' ds t e. let same : delays ≡ ds = cc in ap (λ l. retry_if l action cond t) same)))

square : (n : ℕ) → n ^ 2 ≡ n * n
square n =
    pow-suc n (suc zero) ∙ ap (λ (t : ℕ). t * n) (pow-suc n zero ∙ rw (pow-zero n) (omega arith))

delays_from-two :
    (base factor most : ℕ)
    → delays_from 2 base base factor most
      ≡ min (base * factor) most ∷ min (base ^ 2 * factor) most ∷ []
unfolding delays_from
delays_from-two base factor most = rw (square base)

pub retry_laws : RetryLaws crates
retry_laws = record { retry_if-step = retry_if-step; two_delays = delays_from-two }

pub collect_laws : CollectLaws crates
collect_laws = record {
  collect_ordered-RunsAmong = collect_ordered-RunsAmong [];
  Returns-collect_ordered = Returns-collect_ordered;
  collect_ordered-Emits = collect_ordered-Emits [];
}

pub hash_laws : HashLaws crates
hash_laws = record { length-sha256 = λ b. refl }

pub signature_laws : SignatureLaws crates
signature_laws = record {
  length-as_bytes = λ s. refl;
  signature_try_from-as_bytes = λ s. refl;
  recover-sign = λ k hash s h. ap (λ x. ok (x ∷ [])) (sym (ok_injective h));
}

pub keystore_laws : KeystoreLaws crates
keystore_laws = record { decrypt-encrypt = λ k entropy password. refl }
