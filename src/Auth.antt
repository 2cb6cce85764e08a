-- ===== src/Auth.antt =====
-- app/auth and the login handler of app/api/routers/auth.py.
pub mod Records
pub mod RateLimiter
pub mod Sessions
pub mod Login
pub mod Credentials
pub mod Tokens
pub mod ClientAddress
