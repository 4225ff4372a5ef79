-- ===== src/Tests.antt =====
-- Concrete collaborators, runs of the definitions on small inputs, and the theorems at inputs where
-- their hypotheses hold.
mod Parts
mod Reading
mod Sampling
mod Threading
mod Storing
mod Serving
mod Drawing
mod Subtrees
mod Layouts
mod Loads
mod Whole
mod Drawn
mod Setting
