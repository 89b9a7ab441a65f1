-- ===== src/Examples.antt =====
-- Small inputs on which the theorems are applied and the definitions are run.
pub mod Section
mod CrcRuns
pub mod TsRuns
mod WholeRuns
pub mod UnicastRuns
mod SendingRuns
mod ChannelRuns
mod PatRuns
mod PmtRuns
mod SdtRuns
mod ClientRuns
mod EitRuns
mod AutoconfRuns
mod T2miRuns
