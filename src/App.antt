-- ===== src/App.antt =====
-- bootstrap.py and routers/__init__.py: the routes, and the middlewares around them.
--
-- The web framework runs the middleware that was added last first: the visitor's around the CSRF
-- check, around the handlers of exceptions, around the routes. What no handler answers passes
-- through the middlewares as an exception. Its CORS middleware and its matching of paths are not
-- modelled.
pub mod Endpoints
pub mod Serving
pub mod Devices
pub mod Refusals
pub mod Answers
