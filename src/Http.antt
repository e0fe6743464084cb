-- ===== src/Http.antt =====
-- The HTTP server of a race-service process: backend/internal/middleware around the routes of
-- backend/internal/httpserver.
pub mod Health
pub mod Middleware
pub mod Routes
pub mod Site
pub mod Posts
pub mod Access
