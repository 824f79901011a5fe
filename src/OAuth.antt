-- ===== src/OAuth.antt =====
-- The OAuth 2.0 provider of the gateway, lib/oauth2: the authorization server's registry, grants and
-- exchanges (az-server), the helpers and the token store (oauth2-helper.js, models), and the resource
-- server.
pub mod UnorderedList
pub mod Server
pub mod Exchange
pub mod Helper
pub mod Store
pub mod Grants
pub mod Provider
pub mod Resource
pub mod Authorization
pub mod Session
pub mod Clients
