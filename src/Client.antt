-- ===== src/Client.antt =====
-- client/src: what the web client decides by itself. `Session` is the sign-in that it keeps, `Pages`
-- who is shown which page, `PanicOverlay` the alert that takes over the screen, `Countdown` the time
-- left until a deadline. How a page looks is not in the model.
pub mod Countdown
pub mod Pages
pub mod PanicOverlay
pub mod Session
mod Examples
