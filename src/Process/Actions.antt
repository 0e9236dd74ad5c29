-- ===== src/Process/Actions.antt =====
-- Chains of calls.
use ibc_attestor.Common.{◌≡◌, refl, String, Result, ok, err}
use ibc_attestor.Process.{FilePath, Process, Action, ◌>>=◌}
use ibc_attestor.Process.Files.{OnlyAdds, OnlyAdds-trans}

module _ {A B : Type 0} (f : A → Action B) where
  -- The rest of a chain, by the outcome of its first call.
  abbrev pub rest : Process × Result String A → Process × Result String B
  rest v = elim v.1 [ ok a ↦ f a v.0 | err e ↦ (v.0, err e) ]

  rest-ok :
      (v : Process × Result String A) (p' : Process) (b : B)
      → rest v ≡ (p', ok b)
      → (p₁ : Process) × (a : A) × (v ≡ (p₁, ok a)) × (f a p₁ ≡ (p', ok b))
  rest-ok (p₁, ok a) p' b h = (p₁, a, refl, h)
  rest-ok (p₁, err e) p' b h = cc

  -- A chain that succeeds has succeeded in each part.
  pub >>=-ok :
      (m : Action A) (p p' : Process) (b : B)
      → (m >>= f) p ≡ (p', ok b)
      → (p₁ : Process) × (a : A) × (m p ≡ (p₁, ok a)) × (f a p₁ ≡ (p', ok b))
  >>=-ok m p p' b h = rest-ok (m p) p' b h

  rest-OnlyAdds :
      (dir path : FilePath) (p : Process) (v : Process × Result String A)
      → OnlyAdds dir path p.disk v.0.disk
      → ((a : A) (p₁ : Process) → v ≡ (p₁, ok a) → OnlyAdds dir path p₁.disk (f a p₁).0.disk)
      → OnlyAdds dir path p.disk (rest v).0.disk
  rest-OnlyAdds dir path p (p₁, ok a) h k =
      OnlyAdds-trans dir path p.disk p₁.disk (f a p₁).0.disk h (k a p₁ refl)
  rest-OnlyAdds dir path p (p₁, err e) h k = h

  -- A chain only adds a file where each part does, in the state in which it runs.
  pub >>=-OnlyAdds :
      (dir path : FilePath) (m : Action A) (p : Process)
      → OnlyAdds dir path p.disk (m p).0.disk
      → ((a : A) (p₁ : Process) → m p ≡ (p₁, ok a) → OnlyAdds dir path p₁.disk (f a p₁).0.disk)
      → OnlyAdds dir path p.disk ((m >>= f) p).0.disk
  >>=-OnlyAdds dir path m p h k = rest-OnlyAdds dir path p (m p) h k
