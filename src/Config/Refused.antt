-- ===== src/Config/Refused.antt =====
-- Configurations that are refused.
use ibc_attestor.Common.{
  ◌≡◌, refl, sym, ◌⊎◌, String, ◌<>◌, Bool-cases, inl, inr, Option, none, some, ok, err, Bytes,
  err_injective, map_err, and_then, map_ok-eq-err, map_err-eq-ok, map_err-eq-err, and_then-eq-err,
}
use ibc_attestor.Common.Double.{is_finite, in_unit_range}
use ibc_attestor.Common.Text.{codes}
use ibc_attestor.Adapter.Dispatch.{AdapterEnum}
use ibc_attestor.Config.{
  ChainType, SignerType, TracingConfig, RawConfig, Toml, ConfigError, read_to_string, RuntimeConfig,
  validate, validate_optional, build_adapter, build_signer, from_file, toml, adapter, signer, io,
  invalid_tracing_config,
}
use ibc_attestor.Config.Loaded.{IsRate, AdapterOf, SignerOf, build_adapter_ok, build_signer_ok}
use ibc_attestor.Config.Sections.{
  AdapterUnparsed, SignerUnparsed, AdapterUnbuilt, SignerUnbuilt, build_adapter_err,
  build_signer_err,
}
use ibc_attestor.Crates.{Crates}
use ibc_attestor.Process.{Process}
use ibc_attestor.Signer.Dispatch.{SignerEnum}

module _ (t : Toml) (c : Crates) where
  -- A tracing section whose rate is none.
  abbrev pub RateRefused : Option TracingConfig → String → Type 0
  RateRefused section text =
      (config : TracingConfig) × (section ≡ some config)
      × (¬ (IsRate config))
      × (text
          ≡ "`tracing.sample_rate` must be a finite value in [0.0, 1.0], got "
            <> t.display config.sample_rate)

  validate_err :
      (section : Option TracingConfig) (e : ConfigError)
      → validate_optional t section ≡ err e
      → (text : String) × RateRefused section text × (invalid_tracing_config text ≡ e)
  unfolding validate
  validate_err none e h = cc
  validate_err (some config) e h =
      let refused = map_ok-eq-err some (validate t config) e h in
      let text =
        "`tracing.sample_rate` must be a finite value in [0.0, 1.0], got "
        <> t.display config.sample_rate in
      elim (Bool-cases (is_finite config.sample_rate)) [
        | inr infinite ↦
            let same = err_injective (rw infinite at refused) in
            (text, (config, refl, (λ rate. let no = rate.0 in cc), refl), same)
        | inl a_number ↦ elim (Bool-cases (in_unit_range config.sample_rate)) [
          | inl inside ↦ let e' = rw (a_number, inside) at refused in cc
          | inr outside ↦
              let same = err_injective (rw (a_number, outside) at refused) in
              (text, (config, refl, (λ rate. let no = rate.1 in cc), refl), same)
        ]
      ]

  module _ (path : String) (chain_type : ChainType) (signer_type : SignerType) (p : Process) where
    -- The file is read and parsed.
    abbrev pub Parsed : RawConfig t.Value → Type 0
    Parsed raw =
        (contents : Bytes) × (read_to_string (codes path) p.disk ≡ ok contents)
        × (t.from_str contents ≡ ok raw)

    -- And its adapter is built.
    abbrev pub WithAdapter : RawConfig t.Value → Type 0
    WithAdapter raw = Parsed raw × ((a : AdapterEnum) × AdapterOf t c chain_type raw.adapter a)

    -- And its signer is built.
    abbrev pub WithSigner : RawConfig t.Value → Type 0
    WithSigner raw =
        WithAdapter raw × ((s : SignerEnum c) × SignerOf t c signer_type raw.signer p s)

    -- The configuration of its parts.
    abbrev rest :
        RawConfig t.Value → AdapterEnum → SignerEnum c → Option TracingConfig → RuntimeConfig c
    rest raw a s tracing = record {
      server = raw.server;
      adapter = a;
      signer = s;
      tracing = tracing;
    }

    -- What each error means: the first of the steps that failed.
    abbrev pub Refused : ConfigError → Type 0
    Refused (io path' e) = (path' ≡ path) × (read_to_string (codes path) p.disk ≡ err e)
    Refused (toml e) =
        ((contents : Bytes) × (read_to_string (codes path) p.disk ≡ ok contents)
          × (t.from_str contents ≡ err e))
        ⊎ (((raw : RawConfig t.Value) × Parsed raw × AdapterUnparsed t c chain_type raw.adapter e)
            ⊎ ((raw : RawConfig t.Value) × WithAdapter raw
                × SignerUnparsed t c signer_type raw.signer e))
    Refused (adapter e) =
        (raw : RawConfig t.Value) × Parsed raw × AdapterUnbuilt t c chain_type raw.adapter e
    Refused (signer e) =
        (raw : RawConfig t.Value) × WithAdapter raw × SignerUnbuilt t c signer_type raw.signer p e
    Refused (invalid_tracing_config text) =
        (raw : RawConfig t.Value) × WithSigner raw × RateRefused raw.tracing text

    -- What follows the building of the adapter.
    signer-Refused :
        (raw : RawConfig t.Value)
        → WithAdapter raw
        → (a : AdapterEnum) (e : ConfigError)
        → and_then
            (build_signer t c signer_type raw.signer p)
            (λ s. and_then (validate_optional t raw.tracing) (λ tracing. ok (rest raw a s tracing)))
          ≡ err e
        → Refused e
    signer-Refused raw with_adapter a e h =
        elim (and_then-eq-err (build_signer t c signer_type raw.signer p) _ e h) [
          | inl failed ↦ elim (build_signer_err t c signer_type raw.signer p e failed) [
            | inl (d, unparsed, same) ↦ rw (sym same) (inr (inr (raw, with_adapter, unparsed)))
            | inr (d, unbuilt, same) ↦ rw (sym same) (raw, with_adapter, unbuilt)
          ]
          | inr (s, built, h₁) ↦
              let with_signer : WithSigner raw =
                (with_adapter, (s, (build_signer_ok t c signer_type raw.signer p s).0 built)) in
              elim (and_then-eq-err (validate_optional t raw.tracing) _ e h₁) [
                | inl failed ↦
                    let (text, refused, same) = validate_err raw.tracing e failed in
                    rw (sym same) (raw, with_signer, refused)
                | inr (tracing, valid, h₂) ↦ cc
              ]
        ]

    -- What follows the parsing.
    sections-Refused :
        (raw : RawConfig t.Value)
        → Parsed raw
        → (e : ConfigError)
        → and_then (build_adapter t c chain_type raw.adapter) (λ a.
          and_then (build_signer t c signer_type raw.signer p) (λ s.
            and_then (validate_optional t raw.tracing) (λ tracing. ok (rest raw a s tracing))))
          ≡ err e
        → Refused e
    sections-Refused raw parsed e h =
        elim (and_then-eq-err (build_adapter t c chain_type raw.adapter) _ e h) [
          | inl failed ↦ elim (build_adapter_err t c chain_type raw.adapter e failed) [
            | inl (d, unparsed, same) ↦ rw (sym same) (inr (inl (raw, parsed, unparsed)))
            | inr (d, unbuilt, same) ↦ rw (sym same) (raw, parsed, unbuilt)
          ]
          | inr (a, built, h₁) ↦
              let with_adapter : WithAdapter raw =
                (parsed, (a, (build_adapter_ok t c chain_type raw.adapter a).0 built)) in
              signer-Refused raw with_adapter a e h₁
        ]

    -- Each error of the loading is of the first step that failed, in this order: the reading of the
    -- file, its parsing, the section and the building of the adapter, those of the signer, and the
    -- sampling rate.
    pub from_file-Refused :
        (e : ConfigError) → from_file t c path chain_type signer_type p ≡ err e → Refused e
    unfolding from_file
    from_file-Refused e h =
        let read = read_to_string (codes path) p.disk in
        elim (and_then-eq-err (map_err (io path) read) _ e h) [
          | inl failed ↦
              let (d, unread, same) = map_err-eq-err (io path) read e failed in
              rw (sym same) (refl, unread)
          | inr (contents, found, h₁) ↦
              let file = map_err-eq-ok (io path) read contents found in
              elim (and_then-eq-err (map_err toml (t.from_str contents)) _ e h₁) [
                | inl failed ↦
                    let (d, unparsed, same) = map_err-eq-err toml (t.from_str contents) e failed in
                    rw (sym same) (inl (contents, file, unparsed))
                | inr (raw, found', h₂) ↦
                    let parsed = map_err-eq-ok toml (t.from_str contents) raw found' in
                    sections-Refused raw (contents, file, parsed) e h₂
              ]
        ]
