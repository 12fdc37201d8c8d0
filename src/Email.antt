-- ===== src/Email.antt =====
-- internal/email/content.go: what a message says. Its rendering as text and HTML is not modelled, nor
-- is SMTP: an attempt to send is a test of the caller's, and what was sent is a list.
use yaadegar.Base.{String, List, Option}

pub record Action : Type 0 where
  pub label : String
  pub url : String

pub record Content : Type 0 where
  pub title : String
  pub intro : List String
  pub action : Option Action
  pub secondary : Option Action
  pub outro : List String

pub record Message : Type 0 where
  pub to : String
  pub subject : String
  pub body : Content
