-- ===== src/Tests.antt =====
-- Concrete instances of the interfaces, and the theorems at concrete inputs.
mod Instances
mod WireCases
mod InviteCases
mod JoinerCases
mod JoiningCases
mod RoomCases
mod AppCases
mod HubCases
mod RunningCases
mod LifeCases
mod ConnectionCases
mod SystemCases
