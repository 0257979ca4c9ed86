-- ===== src/Config/Equality.antt =====
-- crates/anymone-core/src/config.rs and keys.rs: the derived `PartialEq` of a protocol's configuration and
-- of published exchange keys.
use native.Mathlib.Decide.{ℕ_discrete}
use anymone.Base.Equality.{Eq, of_discrete}
use anymone.Config.{ExchangePublicKeyWire, Encoding, SetFormation, ProtocolConfig}

pub ExchangePublicKeyWire-discrete : Discrete ExchangePublicKeyWire
ExchangePublicKeyWire-discrete = hlevel ℕ_discrete

Encoding-discrete : Discrete Encoding
Encoding-discrete = hlevel

SetFormation-discrete : Discrete SetFormation
SetFormation-discrete = hlevel

pub ProtocolConfig-discrete : Discrete ProtocolConfig
ProtocolConfig-discrete = hlevel (ℕ_discrete, Encoding-discrete, SetFormation-discrete)

instance abbrev pub wire_key_eq : Eq ExchangePublicKeyWire
wire_key_eq = of_discrete ExchangePublicKeyWire-discrete

instance abbrev pub protocol_config_eq : Eq ProtocolConfig
protocol_config_eq = of_discrete ProtocolConfig-discrete
