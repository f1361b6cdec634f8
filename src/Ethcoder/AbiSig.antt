-- ===== src/Ethcoder/AbiSig.antt =====
-- ethcoder/abi_sig_parser.go and `ABISignature` of ethcoder/abi_sig.go: the signature of a method or an
-- event. Where the source returns a value with an error, the error is kept.
pub mod Tree
pub mod Parens
pub mod Left
pub mod Tuple
pub mod Args
pub mod Group
pub mod Signature
