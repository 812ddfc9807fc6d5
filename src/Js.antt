-- ===== src/Js.antt =====
-- The parts of JavaScript that the front end computes with: text, numbers, values of type
-- `unknown`, and sets.
pub mod Text
pub mod Value
pub mod TextSet
pub mod Date
pub mod Compare
pub mod Move
pub mod Record
