-- ===== src/Signer/Dispatch/Counts.antt =====
-- Which signatures are counted.
use ibc_attestor.Common.{◌≡◌, ◌∙◌, ap, List, [], ◌∷◌, ◌++◌, Result, Bytes, is_ok, if◌then◌else◌}
use ibc_attestor.Crates.{Crates}
use ibc_attestor.Error.{SignerError}
use ibc_attestor.Future.Runs.{Happening, emitted, Run, Run-bind}
use ibc_attestor.Signer.Dispatch.{SignerEnum, inner, counted, sign}
use ibc_attestor.World.{signer_sign_result}

-- The happening that counts a result.
abbrev pub counts : {E A : Type 0} → Result E A → Happening
counts r = emitted (signer_sign_result (if is_ok r then "ok" else "err"))

counted-counts :
    (c : Crates) (v r : Result SignerError c.Signature) (h : List Happening)
    → Run (counted c v) h r
    → (v ≡ r) × (h ≡ counts r ∷ [])
counted-counts c v r h (l, e, (f, same)) = (same, rw f at (rw same at e))

-- The chosen signer's result is passed on unchanged, whether it is a signature or an error, and is
-- counted once, as what it is, after all that the signer did.
pub signer_enum_sign-counted :
    (c : Crates) (self : SignerEnum c) (message : Bytes) (h : List Happening)
    (r : Result SignerError c.Signature)
    → Run (sign c self message) h r
    → (k : List Happening) × Run ((inner c self).sign message) k r × (h ≡ k ++ (counts r ∷ []))
unfolding sign
signer_enum_sign-counted c self message h r run =
    let s = Run-bind ((inner c self).sign message) (counted c) h r run in
    let (same, e) = counted-counts c s.value r s.second s.after in
    (s.first, rw same at s.before, s.joined ∙ ap (λ l. s.first ++ l) e)
