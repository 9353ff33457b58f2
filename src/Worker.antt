-- ===== src/Worker.antt =====
-- app/worker: the Celery tasks that submit orders, track them and restart both.
pub mod Effects
pub mod Rules
pub mod Submit
pub mod Track
pub mod Recovery
