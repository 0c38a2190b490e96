-- ===== src/Math.antt =====
-- src/math: the swap arithmetic of each protocol, over BigInt.
pub mod FullMath
pub mod SqrtPrice
pub mod SwapStep
pub mod TickMath
pub mod UniswapV2
pub mod InitializedTicks
pub mod UniswapV3
pub mod Curve
pub mod CurveIn
pub mod Dodo
pub mod Woofi
