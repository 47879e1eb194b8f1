-- ===== src/Tests.antt =====
-- The theorems at concrete inputs: a toy of the libraries' primitives that keeps all their laws,
-- and for each theorem a run where its hypotheses hold.
mod Toy
mod Grants
mod Closes
mod Cells
mod Dags
mod Words
mod Stores
mod Repos
mod Codecs
mod Keeping
mod Pointing
mod Sharings
mod Rekeying
mod Dates
mod Paths
mod Carrying
mod Commands
mod Starting
mod Looking
